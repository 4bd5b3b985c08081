-- ===== src/Copies/Structs.antt =====
-- The copies of the API structs are deep.
use sqlite_operator.Base.{refl}
use sqlite_operator.Copies.Memory.{
  Library, StoredBackup, StoredReplicaSpec, StoredReplicaStatus, StoredReplica, StoredRestoreSpec,
  StoredRestoreStatus, StoredRestore, StoredList,
}
use sqlite_operator.Copies.Slots.{
  s3_slot, resources_slot, integer_slot, time_slot, conditions_slot, replicas_slot, restores_slot,
}
use sqlite_operator.Copies.Calls.{Calls}
use sqlite_operator.Copies.Replicas.{
  destination_deep_copy_into, backup_deep_copy_into, replica_spec_deep_copy_into,
  replica_status_deep_copy_into, replica_deep_copy_into, replica_list_deep_copy_into,
}
use sqlite_operator.Copies.Restores.{
  restore_spec_deep_copy_into, restore_status_deep_copy_into, restore_deep_copy_into,
  restore_list_deep_copy_into,
}
use sqlite_operator.Copies.Deep.{IsDeep, plain-IsDeep, pointer-IsDeep}
use sqlite_operator.Copies.Arrays.{slice-IsDeep}
use sqlite_operator.Copies.Parts.{one-IsDeep, two-IsDeep, three-IsDeep}
use sqlite_operator.Copies.Meaning.{
  Meaning, IsDeepLibrary, StandsDestination, StandsBackup, StandsReplicaSpec, StandsReplicaStatus,
  StandsReplica, StandsReplicaList, StandsRestoreSpec, StandsRestoreStatus, StandsRestore,
  StandsRestoreList,
}

module _ {l : Library} where
  destination-IsDeep : IsDeep {l = l} StandsDestination destination_deep_copy_into
  unfolding destination_deep_copy_into
  destination-IsDeep =
      one-IsDeep _ (λ d s3. record { s3 = s3 }) _ _ _ (λ d a. refl) (λ d a u. refl)
        (pointer-IsDeep s3_slot (λ t. refl) _ _ plain-IsDeep)

  restore_spec-IsDeep : IsDeep {l = l} StandsRestoreSpec restore_spec_deep_copy_into
  unfolding restore_spec_deep_copy_into
  restore_spec-IsDeep =
      two-IsDeep _ _
        (λ (s : StoredRestoreSpec). λ a b. record s { run_as_user = a; run_as_group = b }) _ _ _ _ _
        (λ s a b. refl) (λ s a b. refl) (λ s a b u w. refl)
        (pointer-IsDeep integer_slot (λ t. refl) _ _ plain-IsDeep)
        (pointer-IsDeep integer_slot (λ t. refl) _ _ plain-IsDeep)

module _ {l : Library} (m : Meaning l) (calls : Calls l) (library : IsDeepLibrary m calls) where
  backup-IsDeep : IsDeep (StandsBackup m) (backup_deep_copy_into calls)
  unfolding backup_deep_copy_into
  backup-IsDeep =
      two-IsDeep _ _ (λ (b : StoredBackup). λ d r. record b { destination = d; resources = r }) _ _
        _ _ _ (λ b d r. refl) (λ b d r. refl) (λ b d r u w. refl) destination-IsDeep
        (pointer-IsDeep resources_slot (λ t. refl) _ _ library.resources)

  replica_spec-IsDeep : IsDeep (StandsReplicaSpec m) (replica_spec_deep_copy_into calls)
  unfolding replica_spec_deep_copy_into
  replica_spec-IsDeep =
      three-IsDeep _ _ _
        (λ (s : StoredReplicaSpec).
          λ b u g. record s { backup = b; run_as_user = u; run_as_group = g })
        _ _ _ _ _ _ _ (λ s a b c. refl) (λ s a b c. refl) (λ s a b c. refl) (λ s a b c u w x. refl)
        backup-IsDeep (pointer-IsDeep integer_slot (λ t. refl) _ _ plain-IsDeep)
        (pointer-IsDeep integer_slot (λ t. refl) _ _ plain-IsDeep)

  replica_status-IsDeep : IsDeep StandsReplicaStatus (replica_status_deep_copy_into calls)
  unfolding replica_status_deep_copy_into
  replica_status-IsDeep =
      two-IsDeep _ _
        (λ (s : StoredReplicaStatus). λ t c. record s { last_backup = t; conditions = c }) _ _ _ _ _
        (λ s a b. refl) (λ s a b. refl) (λ s a b u w. refl)
        (pointer-IsDeep time_slot (λ t. refl) _ _ library.time)
        (slice-IsDeep conditions_slot (λ t. refl) _ _ library.condition)

  pub replica-IsDeep : IsDeep (StandsReplica m) (replica_deep_copy_into calls)
  unfolding replica_deep_copy_into
  replica-IsDeep =
      three-IsDeep _ _ _
        (λ (r : StoredReplica l). λ a b c. record r { metadata = a; spec = b; status = c }) _ _ _ _
        _ _ _ (λ s a b c. refl) (λ s a b c. refl) (λ s a b c. refl) (λ s a b c u w x. refl)
        library.meta replica_spec-IsDeep replica_status-IsDeep

  pub replica_list-IsDeep : IsDeep (StandsReplicaList m) (replica_list_deep_copy_into calls)
  unfolding replica_list_deep_copy_into
  replica_list-IsDeep =
      two-IsDeep _ _ (λ (s : StoredList l). λ a b. record s { metadata = a; items = b }) _ _ _ _ _
        (λ s a b. refl) (λ s a b. refl) (λ s a b u w. refl) library.list_meta
        (slice-IsDeep replicas_slot (λ t. refl) _ _ replica-IsDeep)

  restore_status-IsDeep : IsDeep StandsRestoreStatus (restore_status_deep_copy_into calls)
  unfolding restore_status_deep_copy_into
  restore_status-IsDeep =
      three-IsDeep _ _ _
        (λ (s : StoredRestoreStatus).
          λ a b c. record s { original_replicas = a; start_time = b; completion_time = c })
        _ _ _ _ _ _ _ (λ s a b c. refl) (λ s a b c. refl) (λ s a b c. refl) (λ s a b c u w x. refl)
        (pointer-IsDeep integer_slot (λ t. refl) _ _ plain-IsDeep)
        (pointer-IsDeep time_slot (λ t. refl) _ _ library.time)
        (pointer-IsDeep time_slot (λ t. refl) _ _ library.time)

  pub restore-IsDeep : IsDeep (StandsRestore m) (restore_deep_copy_into calls)
  unfolding restore_deep_copy_into
  restore-IsDeep =
      three-IsDeep _ _ _
        (λ (r : StoredRestore l). λ a b c. record r { metadata = a; spec = b; status = c }) _ _ _ _
        _ _ _ (λ s a b c. refl) (λ s a b c. refl) (λ s a b c. refl) (λ s a b c u w x. refl)
        library.meta restore_spec-IsDeep restore_status-IsDeep

  pub restore_list-IsDeep : IsDeep (StandsRestoreList m) (restore_list_deep_copy_into calls)
  unfolding restore_list_deep_copy_into
  restore_list-IsDeep =
      two-IsDeep _ _ (λ (s : StoredList l). λ a b. record s { metadata = a; items = b }) _ _ _ _ _
        (λ s a b. refl) (λ s a b. refl) (λ s a b u w. refl) library.list_meta
        (slice-IsDeep restores_slot (λ t. refl) _ _ restore-IsDeep)
