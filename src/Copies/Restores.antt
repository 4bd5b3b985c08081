-- ===== src/Copies/Restores.antt =====
-- The deep copies of the types of litestreamrestore_types.go, and those that answer with an interface.
use sqlite_operator.Base.{ℕ, Option}
use sqlite_operator.Copies.Memory.{
  Library, StoredRestoreSpec, StoredRestoreStatus, StoredRestore, StoredList,
}
use sqlite_operator.Copies.Heap.{M, pure, ◌>>=◌, copy_pointer, copy_slice}
use sqlite_operator.Copies.Slots.{
  integer_slot, time_slot, restore_spec_slot, restore_status_slot, restore_slot, restore_list_slot,
  restores_slot,
}
use sqlite_operator.Copies.Calls.{Calls}

module _ {l : Library} where
  unfoldable pub restore_spec_deep_copy_into : StoredRestoreSpec → M l StoredRestoreSpec
  restore_spec_deep_copy_into s = do
    run_as_user ← copy_pointer integer_slot pure s.run_as_user
    run_as_group ← copy_pointer integer_slot pure s.run_as_group
    pure (record s { run_as_user = run_as_user; run_as_group = run_as_group })

  abbrev pub restore_spec_deep_copy : Option ℕ → M l (Option ℕ)
  restore_spec_deep_copy = copy_pointer restore_spec_slot restore_spec_deep_copy_into

module _ {l : Library} (calls : Calls l) where
  unfoldable pub restore_status_deep_copy_into : StoredRestoreStatus → M l StoredRestoreStatus
  restore_status_deep_copy_into s = do
    original_replicas ← copy_pointer integer_slot pure s.original_replicas
    start_time ← copy_pointer time_slot calls.copy_time s.start_time
    completion_time ← copy_pointer time_slot calls.copy_time s.completion_time
    pure (record s {
      original_replicas = original_replicas;
      start_time = start_time;
      completion_time = completion_time;
    })

  abbrev pub restore_status_deep_copy : Option ℕ → M l (Option ℕ)
  restore_status_deep_copy = copy_pointer restore_status_slot restore_status_deep_copy_into

  unfoldable pub restore_deep_copy_into : StoredRestore l → M l (StoredRestore l)
  restore_deep_copy_into r = do
    metadata ← calls.copy_meta r.metadata
    spec ← restore_spec_deep_copy_into r.spec
    status ← restore_status_deep_copy_into r.status
    pure (record r { type_meta = r.type_meta; metadata = metadata; spec = spec; status = status })

  unfoldable pub restore_deep_copy : Option ℕ → M l (Option ℕ)
  restore_deep_copy = copy_pointer restore_slot restore_deep_copy_into

  unfoldable pub restore_list_deep_copy_into : StoredList l → M l (StoredList l)
  restore_list_deep_copy_into s = do
    metadata ← calls.copy_list_meta s.metadata
    items ← copy_slice restores_slot restore_deep_copy_into s.items
    pure (record s { type_meta = s.type_meta; metadata = metadata; items = items })

  unfoldable pub restore_list_deep_copy : Option ℕ → M l (Option ℕ)
  restore_list_deep_copy = copy_pointer restore_list_slot restore_list_deep_copy_into
