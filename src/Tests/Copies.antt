-- ===== src/Tests/Copies.antt =====
-- The deep copies on a small memory.
use sqlite_operator.Base.{refl, none, some, [], ◌∷◌, pos, arith}
use sqlite_operator.Api.Replica.{LitestreamReplica, annotation_pause}
use sqlite_operator.Api.Restore.{LitestreamRestore}
use sqlite_operator.Copies.Slots.{
  leaf_slot, replica_slot, replica_list_slot, restore_slot, restore_list_slot,
}
use sqlite_operator.Copies.Replicas.{replica_deep_copy}
use sqlite_operator.Copies.Restores.{restore_deep_copy}
use sqlite_operator.Copies.Objects.{
  replica_object, replica_list_object, restore_object, restore_list_object, as_object,
  replica_deep_copy_object, replica_list_deep_copy_object, restore_deep_copy_object,
  restore_list_deep_copy_object,
}
use sqlite_operator.Copies.Deep.{nil_pointer, points, plain-IsDeep, pointer-IsDeep}
use sqlite_operator.Copies.Arrays.{covers, no_more, one_more}
use sqlite_operator.Copies.Parts.{one-IsDeep}
use sqlite_operator.Copies.Meaning.{
  Typed, ListOf, IsDeepLibrary, StandsReplica, StandsReplicaList, StandsRestore, StandsRestoreList,
}
use sqlite_operator.Copies.Isolation.{
  Isolated, same, replica_deep_copy-Isolated, restore_deep_copy-Isolated,
  list_deep_copy_object-Isolated,
}
use sqlite_operator.Tests.Objects.{bucket, orders}
use sqlite_operator.Tests.Stored.{
  SmallMeta, calls, meaning, replica_kind, restore_kind, is_ready, stored_replica, the_replica,
  stored_restore, the_restore, list_meta, stored_list, memory, typed, list_of,
}

library : IsDeepLibrary meaning calls
library = record {
  meta =
      one-IsDeep _ (λ (t : SmallMeta). λ a. record t { annotations = a }) _ _ _ (λ t a. refl)
        (λ t a u. refl) (pointer-IsDeep leaf_slot (λ t. refl) _ _ plain-IsDeep);
  list_meta = plain-IsDeep;
  resources = plain-IsDeep;
  condition = plain-IsDeep;
  time = plain-IsDeep;
}

replica_stands : StandsReplica meaning stored_replica (typed replica_kind the_replica) memory 0 12
replica_stands = (
  the_replica.metadata,
  the_replica.spec,
  the_replica.status,
  (
    some ((annotation_pause, "true") ∷ []),
    points 0 _ _ (omega arith) (omega arith) refl refl,
    refl,
  ),
  (
    orders.spec.backup,
    some (pos 1000),
    none,
    (
      record { s3 = some bucket },
      none,
      (some bucket, points 1 _ _ (omega arith) (omega arith) refl refl, refl),
      nil_pointer,
      refl,
    ),
    points 4 _ _ (omega arith) (omega arith) refl refl,
    nil_pointer,
    refl,
  ),
  (
    some 42,
    is_ready ∷ [],
    points 3 _ _ (omega arith) (omega arith) refl refl,
    covers _ _ (is_ready ∷ []) _ (omega arith) (omega arith) refl refl
        (one_more is_ready is_ready [] [] refl no_more),
    refl,
  ),
  refl,
)

restore_stands : StandsRestore meaning stored_restore (typed restore_kind the_restore) memory 0 12
restore_stands = (
  the_restore.metadata,
  the_restore.spec,
  the_restore.status,
  (none, nil_pointer, refl),
  (none, none, nil_pointer, nil_pointer, refl),
  (
    some (pos 2),
    some 42,
    none,
    points 8 _ _ (omega arith) (omega arith) refl refl,
    points 3 _ _ (omega arith) (omega arith) refl refl,
    nil_pointer,
    refl,
  ),
  refl,
)

replica_deep_copy-Isolated_example :
    Isolated replica_slot
      (StandsReplica meaning)
      (replica_deep_copy calls)
      same
      5
      (typed replica_kind the_replica)
      memory
    × Isolated replica_slot
        (StandsReplica meaning)
        (replica_deep_copy_object calls)
        (as_object replica_object)
        5
        (typed replica_kind the_replica)
        memory
replica_deep_copy-Isolated_example =
    replica_deep_copy-Isolated meaning calls library 5 (typed replica_kind the_replica) memory (
      points 5 stored_replica (typed replica_kind the_replica) (omega arith) (omega arith) refl
        replica_stands)

restore_deep_copy-Isolated_example :
    Isolated restore_slot
      (StandsRestore meaning)
      (restore_deep_copy calls)
      same
      9
      (typed restore_kind the_restore)
      memory
    × Isolated restore_slot
        (StandsRestore meaning)
        (restore_deep_copy_object calls)
        (as_object restore_object)
        9
        (typed restore_kind the_restore)
        memory
restore_deep_copy-Isolated_example =
    restore_deep_copy-Isolated meaning calls library 9 (typed restore_kind the_restore) memory (
      points 9 stored_restore (typed restore_kind the_restore) (omega arith) (omega arith) refl
        restore_stands)

abbrev replicas : ListOf (Typed LitestreamReplica)
replicas = list_of replica_kind (typed replica_kind the_replica)

abbrev restores : ListOf (Typed LitestreamRestore)
restores = list_of restore_kind (typed restore_kind the_restore)

replicas_stand : StandsReplicaList meaning (stored_list replica_kind 6) replicas memory 0 12
replicas_stand = (
  list_meta,
  replicas.items,
  refl,
  covers _ _ (stored_replica ∷ []) _ (omega arith) (omega arith) refl refl
      (one_more stored_replica (typed replica_kind the_replica) [] [] replica_stands no_more),
  refl,
)

restores_stand : StandsRestoreList meaning (stored_list restore_kind 10) restores memory 0 12
restores_stand = (
  list_meta,
  restores.items,
  refl,
  covers _ _ (stored_restore ∷ []) _ (omega arith) (omega arith) refl refl
      (one_more stored_restore (typed restore_kind the_restore) [] [] restore_stands no_more),
  refl,
)

list_deep_copy_object-Isolated_example :
    Isolated replica_list_slot
      (StandsReplicaList meaning)
      (replica_list_deep_copy_object calls)
      (as_object replica_list_object)
      7
      replicas
      memory
    × Isolated restore_list_slot
        (StandsRestoreList meaning)
        (restore_list_deep_copy_object calls)
        (as_object restore_list_object)
        11
        restores
        memory
list_deep_copy_object-Isolated_example =
    list_deep_copy_object-Isolated meaning calls library 7 11 replicas restores memory
      (points 7 (stored_list replica_kind 6) replicas (omega arith) (omega arith) refl
        replicas_stand)
      (points 11 (stored_list restore_kind 10) restores (omega arith) (omega arith) refl
        restores_stand)
