-- ===== src/Copies/Replicas.antt =====
-- The deep copies of the types of litestreamreplica_types.go. `DeepCopyInto` is a function from the
-- struct at `in` to the one at `out`: `*out = *in`, and then the fields that point somewhere. `DeepCopy`
-- is the same behind a pointer, into a new cell, which is allocated once its content is known.
use sqlite_operator.Base.{ℕ, Option}
use sqlite_operator.Api.Replica.{S3Destination, RetentionPolicy}
use sqlite_operator.Copies.Memory.{
  Library, StoredDestination, StoredBackup, StoredReplicaSpec, StoredReplicaStatus, StoredReplica,
  StoredList,
}
use sqlite_operator.Copies.Heap.{M, pure, ◌>>=◌, copy_pointer, copy_slice}
use sqlite_operator.Copies.Slots.{
  s3_slot, destination_slot, retention_slot, backup_slot, resources_slot, replica_spec_slot,
  replica_status_slot, replica_slot, replica_list_slot, integer_slot, time_slot, conditions_slot,
  replicas_slot,
}
use sqlite_operator.Copies.Calls.{Calls}

module _ {l : Library} where
  abbrev pub s3_deep_copy_into : S3Destination → M l S3Destination
  s3_deep_copy_into d = pure d

  abbrev pub s3_deep_copy : Option ℕ → M l (Option ℕ)
  s3_deep_copy = copy_pointer s3_slot s3_deep_copy_into

  abbrev pub retention_deep_copy_into : RetentionPolicy → M l RetentionPolicy
  retention_deep_copy_into r = pure r

  abbrev pub retention_deep_copy : Option ℕ → M l (Option ℕ)
  retention_deep_copy = copy_pointer retention_slot retention_deep_copy_into

  unfoldable pub destination_deep_copy_into : StoredDestination → M l StoredDestination
  destination_deep_copy_into d = do
    s3 ← copy_pointer s3_slot s3_deep_copy_into d.s3
    pure (record d { s3 = s3 })

  abbrev pub destination_deep_copy : Option ℕ → M l (Option ℕ)
  destination_deep_copy = copy_pointer destination_slot destination_deep_copy_into

module _ {l : Library} (calls : Calls l) where
  unfoldable pub backup_deep_copy_into : StoredBackup → M l StoredBackup
  backup_deep_copy_into b = do
    destination ← destination_deep_copy_into b.destination
    resources ← copy_pointer resources_slot calls.copy_resources b.resources
    pure (record b { destination = destination; retention = b.retention; resources = resources })

  abbrev pub backup_deep_copy : Option ℕ → M l (Option ℕ)
  backup_deep_copy = copy_pointer backup_slot backup_deep_copy_into

  unfoldable pub replica_spec_deep_copy_into : StoredReplicaSpec → M l StoredReplicaSpec
  replica_spec_deep_copy_into s = do
    backup ← backup_deep_copy_into s.backup
    run_as_user ← copy_pointer integer_slot pure s.run_as_user
    run_as_group ← copy_pointer integer_slot pure s.run_as_group
    pure (record s { backup = backup; run_as_user = run_as_user; run_as_group = run_as_group })

  abbrev pub replica_spec_deep_copy : Option ℕ → M l (Option ℕ)
  replica_spec_deep_copy = copy_pointer replica_spec_slot replica_spec_deep_copy_into

  unfoldable pub replica_status_deep_copy_into : StoredReplicaStatus → M l StoredReplicaStatus
  replica_status_deep_copy_into s = do
    last_backup ← copy_pointer time_slot calls.copy_time s.last_backup
    conditions ← copy_slice conditions_slot calls.copy_condition s.conditions
    pure (record s { last_backup = last_backup; conditions = conditions })

  abbrev pub replica_status_deep_copy : Option ℕ → M l (Option ℕ)
  replica_status_deep_copy = copy_pointer replica_status_slot replica_status_deep_copy_into

  unfoldable pub replica_deep_copy_into : StoredReplica l → M l (StoredReplica l)
  replica_deep_copy_into r = do
    metadata ← calls.copy_meta r.metadata
    spec ← replica_spec_deep_copy_into r.spec
    status ← replica_status_deep_copy_into r.status
    pure (record r { type_meta = r.type_meta; metadata = metadata; spec = spec; status = status })

  unfoldable pub replica_deep_copy : Option ℕ → M l (Option ℕ)
  replica_deep_copy = copy_pointer replica_slot replica_deep_copy_into

  unfoldable pub replica_list_deep_copy_into : StoredList l → M l (StoredList l)
  replica_list_deep_copy_into s = do
    metadata ← calls.copy_list_meta s.metadata
    items ← copy_slice replicas_slot replica_deep_copy_into s.items
    pure (record s { type_meta = s.type_meta; metadata = metadata; items = items })

  unfoldable pub replica_list_deep_copy : Option ℕ → M l (Option ℕ)
  replica_list_deep_copy = copy_pointer replica_list_slot replica_list_deep_copy_into
