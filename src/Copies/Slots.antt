-- ===== src/Copies/Slots.antt =====
-- How each type is held by a cell.
use sqlite_operator.Base.{ℕ, Option, none, some, List, ℤ}
use sqlite_operator.Api.Replica.{S3Destination, RetentionPolicy, Condition}
use sqlite_operator.Copies.Memory.{
  Library, StoredDestination, StoredBackup, StoredReplicaSpec, StoredReplicaStatus, StoredReplica,
  StoredRestoreSpec, StoredRestoreStatus, StoredRestore, StoredList,
}
use sqlite_operator.Copies.Heap.{
  Cell, Slot, s3_cell, destination_cell, retention_cell, backup_cell, resources_cell,
  replica_spec_cell, replica_status_cell, replica_cell, replica_list_cell, restore_spec_cell,
  restore_status_cell, restore_cell, restore_list_cell, integer_cell, time_cell, conditions_array,
  replicas_array, restores_array, leaf_cell,
}

module _ {l : Library} where
  abbrev as_s3 : Cell l → Option S3Destination
  as_s3 (s3_cell t) = some t
  as_s3 _ = none

  abbrev pub s3_slot : Slot l S3Destination
  s3_slot = record { put = s3_cell; get = as_s3 }

  abbrev as_destination : Cell l → Option StoredDestination
  as_destination (destination_cell t) = some t
  as_destination _ = none

  abbrev pub destination_slot : Slot l StoredDestination
  destination_slot = record { put = destination_cell; get = as_destination }

  abbrev as_retention : Cell l → Option RetentionPolicy
  as_retention (retention_cell t) = some t
  as_retention _ = none

  abbrev pub retention_slot : Slot l RetentionPolicy
  retention_slot = record { put = retention_cell; get = as_retention }

  abbrev as_backup : Cell l → Option StoredBackup
  as_backup (backup_cell t) = some t
  as_backup _ = none

  abbrev pub backup_slot : Slot l StoredBackup
  backup_slot = record { put = backup_cell; get = as_backup }

  abbrev as_resources : Cell l → Option l.Resources
  as_resources (resources_cell t) = some t
  as_resources _ = none

  abbrev pub resources_slot : Slot l l.Resources
  resources_slot = record { put = resources_cell; get = as_resources }

  abbrev as_replica_spec : Cell l → Option StoredReplicaSpec
  as_replica_spec (replica_spec_cell t) = some t
  as_replica_spec _ = none

  abbrev pub replica_spec_slot : Slot l StoredReplicaSpec
  replica_spec_slot = record { put = replica_spec_cell; get = as_replica_spec }

  abbrev as_replica_status : Cell l → Option StoredReplicaStatus
  as_replica_status (replica_status_cell t) = some t
  as_replica_status _ = none

  abbrev pub replica_status_slot : Slot l StoredReplicaStatus
  replica_status_slot = record { put = replica_status_cell; get = as_replica_status }

  abbrev as_replica : Cell l → Option (StoredReplica l)
  as_replica (replica_cell t) = some t
  as_replica _ = none

  abbrev pub replica_slot : Slot l (StoredReplica l)
  replica_slot = record { put = replica_cell; get = as_replica }

  abbrev as_replica_list : Cell l → Option (StoredList l)
  as_replica_list (replica_list_cell t) = some t
  as_replica_list _ = none

  abbrev pub replica_list_slot : Slot l (StoredList l)
  replica_list_slot = record { put = replica_list_cell; get = as_replica_list }

  abbrev as_restore_spec : Cell l → Option StoredRestoreSpec
  as_restore_spec (restore_spec_cell t) = some t
  as_restore_spec _ = none

  abbrev pub restore_spec_slot : Slot l StoredRestoreSpec
  restore_spec_slot = record { put = restore_spec_cell; get = as_restore_spec }

  abbrev as_restore_status : Cell l → Option StoredRestoreStatus
  as_restore_status (restore_status_cell t) = some t
  as_restore_status _ = none

  abbrev pub restore_status_slot : Slot l StoredRestoreStatus
  restore_status_slot = record { put = restore_status_cell; get = as_restore_status }

  abbrev as_restore : Cell l → Option (StoredRestore l)
  as_restore (restore_cell t) = some t
  as_restore _ = none

  abbrev pub restore_slot : Slot l (StoredRestore l)
  restore_slot = record { put = restore_cell; get = as_restore }

  abbrev as_restore_list : Cell l → Option (StoredList l)
  as_restore_list (restore_list_cell t) = some t
  as_restore_list _ = none

  abbrev pub restore_list_slot : Slot l (StoredList l)
  restore_list_slot = record { put = restore_list_cell; get = as_restore_list }

  abbrev as_integer : Cell l → Option ℤ
  as_integer (integer_cell t) = some t
  as_integer _ = none

  abbrev pub integer_slot : Slot l ℤ
  integer_slot = record { put = integer_cell; get = as_integer }

  abbrev as_time : Cell l → Option ℕ
  as_time (time_cell t) = some t
  as_time _ = none

  abbrev pub time_slot : Slot l ℕ
  time_slot = record { put = time_cell; get = as_time }

  abbrev as_conditions : Cell l → Option (List Condition)
  as_conditions (conditions_array t) = some t
  as_conditions _ = none

  abbrev pub conditions_slot : Slot l (List Condition)
  conditions_slot = record { put = conditions_array; get = as_conditions }

  abbrev as_replicas : Cell l → Option (List (StoredReplica l))
  as_replicas (replicas_array t) = some t
  as_replicas _ = none

  abbrev pub replicas_slot : Slot l (List (StoredReplica l))
  replicas_slot = record { put = replicas_array; get = as_replicas }

  abbrev as_restores : Cell l → Option (List (StoredRestore l))
  as_restores (restores_array t) = some t
  as_restores _ = none

  abbrev pub restores_slot : Slot l (List (StoredRestore l))
  restores_slot = record { put = restores_array; get = as_restores }

  abbrev as_leaf : Cell l → Option l.Leaf
  as_leaf (leaf_cell t) = some t
  as_leaf _ = none

  abbrev pub leaf_slot : Slot l l.Leaf
  leaf_slot = record { put = leaf_cell; get = as_leaf }
