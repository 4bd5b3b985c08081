-- ===== src/Api/Replica.antt =====
-- api/v1/litestreamreplica_types.go
use sqlite_operator.Base.{ℕ, String, Bool, Option, List, ℤ}
use sqlite_operator.Kube.Objects.{ObjectMeta, ResourceRequirements}

pub record S3Destination : Type 0 where
  pub endpoint : String
  pub bucket : String
  pub path : String
  pub secret_ref : String

pub record BackupDestination : Type 0 where
  pub s3 : Option S3Destination

pub record RetentionPolicy : Type 0 where
  pub duration : String

pub record BackupSpec : Type 0 where
  pub enabled : Bool
  pub destination : BackupDestination
  pub retention : RetentionPolicy
  pub sync_interval : String
  pub log_level : String
  pub resources : Option ResourceRequirements
  pub auto_restore : Bool

pub record LitestreamReplicaSpec : Type 0 where
  pub database_name : String
  pub database_path : String
  pub target_deployment : String
  pub target_stateful_set : String
  pub image : String
  pub backup : BackupSpec
  pub init_sql : String
  pub init_image : String
  pub run_as_user : Option ℤ
  pub run_as_group : Option ℤ

abbrev pub annotation_inject : String
annotation_inject = "litestream.io/inject"

abbrev pub annotation_config : String
annotation_config = "litestream.io/config"

abbrev pub annotation_pause : String
annotation_pause = "litestream.io/pause"

abbrev pub annotation_skip_archive_check : String
annotation_skip_archive_check = "litestream.io/skip-archive-check"

-- The constants of the condition types.
pub data ConditionType : Type 0 where
  sidecar_injected backup_healthy init_sql_applied replication_paused : ConditionType
  archive_check_failed replica_count_exceeded ready : ConditionType

pub data ConditionStatus : Type 0 where
  true_status false_status unknown_status : ConditionStatus

-- metav1.Condition
pub record Condition : Type 0 where
  pub type : ConditionType
  pub status : ConditionStatus
  pub reason : String
  pub message : String
  pub observed_generation : ℕ
  pub last_transition_time : ℕ

-- The constants of the phase; `no_phase` is the empty text of a new object.
pub data Phase : Type 0 where
  no_phase configuring pending ready_phase paused error : Phase

pub record LitestreamReplicaStatus : Type 0 where
  pub phase : Phase
  pub ready : Bool
  pub backup_healthy : Bool
  pub last_backup : Option ℕ
  pub replication_lag : String
  pub init_sql_hash : String
  pub observed_generation : ℕ
  pub conditions : List Condition

pub record LitestreamReplica : Type 0 where
  pub metadata : ObjectMeta
  pub spec : LitestreamReplicaSpec
  pub status : LitestreamReplicaStatus
