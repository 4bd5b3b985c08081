-- ===== src/Replica/Reconcile.antt =====
-- `LitestreamReplicaReconciler.Reconcile`, and the request that a change of a pod makes.
use sqlite_operator.Base.{ℕ, String, Option, none, some, List, [], ◌∷◌, ◌==◌, if◌then◌else◌}
use sqlite_operator.Base.Strings.{cut_slash}
use sqlite_operator.Base.Dict.{index}
use sqlite_operator.Kube.Errors.{Err, Result, ok, err, is_not_found}
use sqlite_operator.Kube.Objects.{NamespacedName, Pod}
use sqlite_operator.Kube.Client.{Client, M, pure, ◌>>=◌, reads, Outcome, finished, requeue, failing}
use sqlite_operator.Api.Replica.{LitestreamReplica, annotation_config}
use sqlite_operator.Replica.Conditions.{ConditionStore}
use sqlite_operator.Replica.ConfigMaps.{reconcile_litestream_config, reconcile_init_sql_config}
use sqlite_operator.Replica.Target.{reconcile_target_annotation}
use sqlite_operator.Replica.Status.{update_status}

-- 2 * time.Minute
abbrev pub status_sync_interval : ℕ
status_sync_interval = 120

module _ {S : Type 0} (client : Client S) (store : ConditionStore)
    (init_sql_hash : String → String) where
  -- Run a step, and go on where it has no error.
  abbrev pub guarded : M S (Option Err) → M S Outcome → M S Outcome
  guarded step rest = do e ← step; elim e [ some e ↦ pure (failing e) | none ↦ rest ]

  abbrev pub after_init_sql : Option Err × LitestreamReplica → M S Outcome
  after_init_sql (some e, db) = pure (failing e)
  after_init_sql (none, db) =
      guarded (reconcile_target_annotation client db)
        (guarded (update_status client store db) (pure (requeue status_sync_interval)))

  -- From the object that was found on.
  unfoldable pub reconcile_replica : LitestreamReplica → M S Outcome
  reconcile_replica db =
      guarded (reconcile_litestream_config client store db)
        (reconcile_init_sql_config client store init_sql_hash db >>= after_init_sql)

  abbrev with_replica : Result LitestreamReplica → M S Outcome
  with_replica (ok db) = reconcile_replica db
  with_replica (err e) = if is_not_found e then pure finished else pure (failing e)

  unfoldable pub reconcile : NamespacedName → M S Outcome
  reconcile req = reads (client.get_replica req) >>= with_replica

-- The loop that cuts the reference: without a slash, the whole text is the name.
abbrev cut_reference : String → Option (String × String) → String × String
cut_reference ref none = ("", ref)
cut_reference ref (some (ns, name)) = (ns, name)

abbrev request_for : Pod → String × String → NamespacedName
request_for pod (ns, name) = record {
  namespace = if ns == "" then pod.metadata.namespace else ns;
  name = name;
}

-- `podToLitestreamReplica`
unfoldable pub pod_to_litestream_replica : Pod → List NamespacedName
pod_to_litestream_replica pod =
    let ref = index pod.metadata.annotations annotation_config in
    if ref == "" then [] else request_for pod (cut_reference ref (cut_slash ref)) ∷ []
