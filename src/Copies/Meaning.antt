-- ===== src/Copies/Meaning.antt =====
-- What values the structs in memory stand for: those of Api, which the controllers are modelled over.
use sqlite_operator.Base.{ℕ, String, Option, List, ℤ}
use sqlite_operator.Kube.Objects.{ObjectMeta, ResourceRequirements}
use sqlite_operator.Api.Replica.{
  BackupDestination, BackupSpec, LitestreamReplicaSpec, Condition, LitestreamReplicaStatus,
  LitestreamReplica,
}
use sqlite_operator.Api.Restore.{LitestreamRestoreSpec, LitestreamRestoreStatus, LitestreamRestore}
use sqlite_operator.Copies.Memory.{
  Library, TypeMeta, StoredDestination, StoredBackup, StoredReplicaSpec, StoredReplicaStatus,
  StoredReplica, StoredRestoreSpec, StoredRestoreStatus, StoredRestore, StoredList,
}
use sqlite_operator.Copies.Slots.{
  s3_slot, resources_slot, integer_slot, time_slot, conditions_slot, replicas_slot, restores_slot,
}
use sqlite_operator.Copies.Calls.{Calls}
use sqlite_operator.Copies.Deep.{Stands, IsDeep, Plain, Pointed}
use sqlite_operator.Copies.Arrays.{Covered}
use sqlite_operator.Copies.Parts.{One, Two, Three}

-- metav1.ListMeta
pub record ListMeta : Type 0 where
  pub self_link : String
  pub resource_version : String
  pub continue_token : String
  pub remaining_item_count : Option ℤ

-- An object with its TypeMeta, and a list of such.
pub record Typed (A : Type 0) : Type 0 where
  pub type_meta : TypeMeta
  pub object : A

pub record ListOf (A : Type 0) : Type 0 where
  pub type_meta : TypeMeta
  pub metadata : ListMeta
  pub items : List A

-- What the structs of the libraries stand for.
pub record Meaning (l : Library) : Type 1 where
  pub StandsMeta : Stands l l.Meta ObjectMeta
  pub StandsListMeta : Stands l l.ListMeta ListMeta
  pub StandsResources : Stands l l.Resources ResourceRequirements

-- The deep copies of the libraries are deep.
pub record IsDeepLibrary {l : Library} (m : Meaning l) (calls : Calls l) : Type 0 where
  pub meta : IsDeep m.StandsMeta calls.copy_meta
  pub list_meta : IsDeep m.StandsListMeta calls.copy_list_meta
  pub resources : IsDeep m.StandsResources calls.copy_resources
  pub condition : IsDeep {l = l} {T = Condition} {V = Condition} Plain calls.copy_condition
  pub time : IsDeep {l = l} {T = ℕ} {V = ℕ} Plain calls.copy_time

abbrev pub backup_value :
    StoredBackup → BackupDestination → Option ResourceRequirements → BackupSpec
backup_value b destination resources = record {
  enabled = b.enabled;
  destination = destination;
  retention = b.retention;
  sync_interval = b.sync_interval;
  log_level = b.log_level;
  resources = resources;
  auto_restore = b.auto_restore;
}

abbrev pub replica_spec_value :
    StoredReplicaSpec → BackupSpec → Option ℤ → Option ℤ → LitestreamReplicaSpec
replica_spec_value s backup run_as_user run_as_group = record {
  database_name = s.database_name;
  database_path = s.database_path;
  target_deployment = s.target_deployment;
  target_stateful_set = s.target_stateful_set;
  image = s.image;
  backup = backup;
  init_sql = s.init_sql;
  init_image = s.init_image;
  run_as_user = run_as_user;
  run_as_group = run_as_group;
}

abbrev pub replica_status_value :
    StoredReplicaStatus → Option ℕ → List Condition → LitestreamReplicaStatus
replica_status_value s last_backup conditions = record {
  phase = s.phase;
  ready = s.ready;
  backup_healthy = s.backup_healthy;
  last_backup = last_backup;
  replication_lag = s.replication_lag;
  init_sql_hash = s.init_sql_hash;
  observed_generation = s.observed_generation;
  conditions = conditions;
}

abbrev pub restore_spec_value : StoredRestoreSpec → Option ℤ → Option ℤ → LitestreamRestoreSpec
restore_spec_value s run_as_user run_as_group = record {
  source_ref = s.source_ref;
  target_pvc = s.target_pvc;
  target_path = s.target_path;
  timestamp = s.timestamp;
  image = s.image;
  force = s.force;
  run_as_user = run_as_user;
  run_as_group = run_as_group;
}

abbrev pub restore_status_value :
    StoredRestoreStatus → Option ℤ → Option ℕ → Option ℕ → LitestreamRestoreStatus
restore_status_value s original_replicas start_time completion_time = record {
  phase = s.phase;
  job_name = s.job_name;
  original_replicas = original_replicas;
  start_time = start_time;
  completion_time = completion_time;
  message = s.message;
}

abbrev pub StandsDestination : {l : Library} → Stands l StoredDestination BackupDestination
StandsDestination = One (λ d. d.s3) (λ d s3. record { s3 = s3 }) (Pointed s3_slot Plain)

abbrev pub StandsRestoreSpec : {l : Library} → Stands l StoredRestoreSpec LitestreamRestoreSpec
StandsRestoreSpec =
    Two (λ s. s.run_as_user) (λ s. s.run_as_group) restore_spec_value (Pointed integer_slot Plain)
      (Pointed integer_slot Plain)

abbrev pub StandsRestoreStatus :
    {l : Library} → Stands l StoredRestoreStatus LitestreamRestoreStatus
StandsRestoreStatus =
    Three (λ s. s.original_replicas) (λ s. s.start_time) (λ s. s.completion_time)
      restore_status_value (Pointed integer_slot Plain) (Pointed time_slot Plain)
      (Pointed time_slot Plain)

abbrev pub StandsReplicaStatus :
    {l : Library} → Stands l StoredReplicaStatus LitestreamReplicaStatus
StandsReplicaStatus =
    Two (λ s. s.last_backup) (λ s. s.conditions) replica_status_value (Pointed time_slot Plain)
      (Covered conditions_slot Plain)

module _ {l : Library} (m : Meaning l) where
  abbrev pub StandsBackup : Stands l StoredBackup BackupSpec
  StandsBackup =
      Two (λ b. b.destination) (λ b. b.resources) backup_value StandsDestination
        (Pointed resources_slot m.StandsResources)

  abbrev pub StandsReplicaSpec : Stands l StoredReplicaSpec LitestreamReplicaSpec
  StandsReplicaSpec =
      Three (λ s. s.backup) (λ s. s.run_as_user) (λ s. s.run_as_group) replica_spec_value
        StandsBackup (Pointed integer_slot Plain) (Pointed integer_slot Plain)

  abbrev pub StandsReplica : Stands l (StoredReplica l) (Typed LitestreamReplica)
  StandsReplica =
      Three (λ r. r.metadata) (λ r. r.spec) (λ r. r.status)
        (λ r metadata spec status. record {
          type_meta = r.type_meta;
          object = record { metadata = metadata; spec = spec; status = status };
        })
        m.StandsMeta StandsReplicaSpec StandsReplicaStatus

  abbrev pub StandsRestore : Stands l (StoredRestore l) (Typed LitestreamRestore)
  StandsRestore =
      Three (λ r. r.metadata) (λ r. r.spec) (λ r. r.status)
        (λ r metadata spec status. record {
          type_meta = r.type_meta;
          object = record { metadata = metadata; spec = spec; status = status };
        })
        m.StandsMeta StandsRestoreSpec StandsRestoreStatus

  abbrev pub StandsReplicaList : Stands l (StoredList l) (ListOf (Typed LitestreamReplica))
  StandsReplicaList =
      Two (λ s. s.metadata) (λ s. s.items)
        (λ s metadata items. record { type_meta = s.type_meta; metadata = metadata; items = items })
        m.StandsListMeta (Covered replicas_slot StandsReplica)

  abbrev pub StandsRestoreList : Stands l (StoredList l) (ListOf (Typed LitestreamRestore))
  StandsRestoreList =
      Two (λ s. s.metadata) (λ s. s.items)
        (λ s metadata items. record { type_meta = s.type_meta; metadata = metadata; items = items })
        m.StandsListMeta (Covered restores_slot StandsRestore)
