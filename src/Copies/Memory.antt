-- ===== src/Copies/Memory.antt =====
-- The API types as they lie in memory: a pointer is an address, or none where it is nil.
use sqlite_operator.Base.{ℕ, String, Bool, Option}
use sqlite_operator.Api.Replica.{RetentionPolicy, Phase}
use sqlite_operator.Api.Restore.{RestorePhase}

-- How metav1.ObjectMeta, metav1.ListMeta and corev1.ResourceRequirements lie in memory, and what other
-- cells they point to.
pub record Library : Type 1 where
  pub Meta : Type 0
  pub ListMeta : Type 0
  pub Resources : Type 0
  pub Leaf : Type 0

-- metav1.TypeMeta
pub record TypeMeta : Type 0 where
  pub kind : String
  pub api_version : String

-- A slice: a part of an array. The capacity plays no role in a copy.
pub record Slice : Type 0 where
  pub array : ℕ
  pub offset : ℕ
  pub length : ℕ

pub record StoredDestination : Type 0 where
  pub s3 : Option ℕ

pub record StoredBackup : Type 0 where
  pub enabled : Bool
  pub destination : StoredDestination
  pub retention : RetentionPolicy
  pub sync_interval : String
  pub log_level : String
  pub resources : Option ℕ
  pub auto_restore : Bool

pub record StoredReplicaSpec : Type 0 where
  pub database_name : String
  pub database_path : String
  pub target_deployment : String
  pub target_stateful_set : String
  pub image : String
  pub backup : StoredBackup
  pub init_sql : String
  pub init_image : String
  pub run_as_user : Option ℕ
  pub run_as_group : Option ℕ

pub record StoredReplicaStatus : Type 0 where
  pub phase : Phase
  pub ready : Bool
  pub backup_healthy : Bool
  pub last_backup : Option ℕ
  pub replication_lag : String
  pub init_sql_hash : String
  pub observed_generation : ℕ
  pub conditions : Option Slice

pub record StoredRestoreSpec : Type 0 where
  pub source_ref : String
  pub target_pvc : String
  pub target_path : String
  pub timestamp : String
  pub image : String
  pub force : Bool
  pub run_as_user : Option ℕ
  pub run_as_group : Option ℕ

pub record StoredRestoreStatus : Type 0 where
  pub phase : RestorePhase
  pub job_name : String
  pub original_replicas : Option ℕ
  pub start_time : Option ℕ
  pub completion_time : Option ℕ
  pub message : String

pub record StoredReplica (l : Library) : Type 0 where
  pub type_meta : TypeMeta
  pub metadata : l.Meta
  pub spec : StoredReplicaSpec
  pub status : StoredReplicaStatus

pub record StoredRestore (l : Library) : Type 0 where
  pub type_meta : TypeMeta
  pub metadata : l.Meta
  pub spec : StoredRestoreSpec
  pub status : StoredRestoreStatus

-- The list of an API type.
pub record StoredList (l : Library) : Type 0 where
  pub type_meta : TypeMeta
  pub metadata : l.ListMeta
  pub items : Option Slice
