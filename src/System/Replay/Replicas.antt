-- ===== src/System/Replay/Replicas.antt =====
-- A reconcile of a replica leaves the cluster that its writes lead to, and does no harm to a pause.
use sqlite_operator.Base.{
  [], ◌∷◌, String, ◌≡◌, refl, Bool, true, Option, none, some, ◌==◌, arith, exceeds, Bool-cases, inl,
  inr,
}
use sqlite_operator.Base.Dict.{Dict}
use sqlite_operator.Kube.Errors.{Err, Result, ok, err, Result-cases}
use sqlite_operator.Kube.Client.{
  Client, World, Write, patch_replica_status, send, M, Outcome, start, WorkloadTarget,
}
use sqlite_operator.Kube.Objects.{NamespacedName}
use sqlite_operator.Workload.{desired_replicas, patch_workload_pod_template}
use sqlite_operator.Api.Replica.{LitestreamReplica, LitestreamReplicaStatus}
use sqlite_operator.Replica.Conditions.{ConditionStore}
use sqlite_operator.Config.{litestream_config_key}
use sqlite_operator.Replica.ConfigMaps.{
  received, owned_key, litestream_config, patch_hash, clear_hash, store_hash,
  reconcile_init_sql_config, reconcile_litestream_config,
}
use sqlite_operator.Replica.Target.{is_annotated, annotate_target, reconcile_target_annotation}
use sqlite_operator.Replica.Status.{update_status}
use sqlite_operator.Replica.Reconcile.{after_init_sql, reconcile_replica, reconcile, guarded}
use sqlite_operator.System.Replay.{IsCareful, is_harmless}
use sqlite_operator.System.Replay.Statuses.{written, update_status-keeps}

-- The two ConfigMaps of a replica pass a test.
abbrev pub Fits : (NamespacedName → Dict → Bool) → LitestreamReplica → Type 0
Fits fits db =
    (fits (owned_key db "-litestream") ((litestream_config_key, litestream_config db) ∷ []) ≡ true)
    × (fits (owned_key db "-init-sql") (("init.sql", db.spec.init_sql) ∷ []) ≡ true)

-- What every harmless write keeps, a reconcile of a replica keeps.
module _ {S : Type 0} (client : Client S) (I : World S → Type 0)
    (fits : NamespacedName → Dict → Bool)
    (keeps : (x : Write) (w : World S)
      → is_harmless fits x ≡ true
      → I w
      → I (written client x w)) where
  module _ (store : ConditionStore) (db : LitestreamReplica) where
    received-keeps :
        (new : LitestreamReplica) (e : Option Err) (w : World S)
        → I w
        → I (received client store new e w).1
    received-keeps new (some e) w i = i
    received-keeps new none w i = i

    patch_hash-keeps :
        (s : LitestreamReplicaStatus) (w : World S) → I w → I (patch_hash client store db s w).1
    unfolding patch_hash
    patch_hash-keeps s w i =
        let new = record db { status = s } in
        received-keeps new (client.send (patch_replica_status db new) w.cluster).0
          (written client (patch_replica_status db new) w) (keeps _ w refl i)

    store_hash-keeps :
        (hash : String) (e : Option Err) (w : World S)
        → I w
        → I (store_hash client store db hash e w).1
    unfolding store_hash
    store_hash-keeps hash (some e) w i = i
    store_hash-keeps hash none w i = elim (Bool-cases (db.status.init_sql_hash == hash)) [
      | inl e ↦ rw e (i)
      | inr e ↦ rw e (patch_hash-keeps _ w i)
    ]

    clear_hash-keeps : (w : World S) → I w → I (clear_hash client store db w).1
    unfolding clear_hash
    clear_hash-keeps w i = elim (Bool-cases (db.status.init_sql_hash == "")) [
      | inl e ↦ rw e (i)
      | inr e ↦ rw e (patch_hash-keeps _ w i)
    ]

    pub init_sql-keeps :
        (hash : String → String) (w : World S)
        → fits (owned_key db "-init-sql") (("init.sql", db.spec.init_sql) ∷ []) ≡ true
        → I w
        → I (reconcile_init_sql_config client store hash db w).1
    unfolding reconcile_init_sql_config send
    init_sql-keeps hash w f i = elim (Bool-cases (db.spec.init_sql == "")) [
      | inl e ↦ rw e (clear_hash-keeps w i)
      | inr e ↦ rw e (store_hash-keeps (hash db.spec.init_sql) _ _ (keeps _ w f i))
    ]

    annotate_target-keeps :
        (r : Result WorkloadTarget) (w : World S) → I w → I (annotate_target client db r w).1
    unfolding annotate_target patch_workload_pod_template
    annotate_target-keeps (err e) w i = i
    annotate_target-keeps (ok wt) w i = elim (Bool-cases (exceeds (desired_replicas wt) 1)) [
      | inl e ↦ rw e (keeps _ w refl i)
      | inr e ↦ rw e (elim (Bool-cases (is_annotated db wt)) [
        | inl e ↦ rw e (i)
        | inr e ↦ rw e (keeps _ w refl i)
      ])
    ]

    reconcile_target_annotation-keeps :
        (w : World S) → I w → I (reconcile_target_annotation client db w).1
    unfolding reconcile_target_annotation
    reconcile_target_annotation-keeps w i = annotate_target-keeps _ w i

    litestream_config-keeps :
        (w : World S)
        → fits (owned_key db "-litestream") ((litestream_config_key, litestream_config db) ∷ [])
          ≡ true
        → I w
        → I (reconcile_litestream_config client store db w).1
    unfolding reconcile_litestream_config
    litestream_config-keeps w f i = keeps _ w f i

  module _ (store : ConditionStore) (hash : String → String) where
    answered-keeps :
        (e : Option Err) (rest : M S Outcome) (w : World S)
        → I w
        → I (rest w).1
        → I (guarded client store hash (λ w. (e, w)) rest w).1
    answered-keeps (some e) rest w i k = i
    answered-keeps none rest w i k = k

    pub guarded-keeps :
        (step : M S (Option Err)) (rest : M S Outcome) (w : World S)
        → I (step w).1
        → ((w : World S) → I w → I (rest w).1)
        → I (guarded client store hash step rest w).1
    guarded-keeps step rest w i k = answered-keeps (step w).0 rest (step w).1 i (k (step w).1 i)

    pub after_init_sql-keeps :
        (r : Option Err × LitestreamReplica) (w : World S)
        → I w
        → I (after_init_sql client store hash r w).1
    after_init_sql-keeps (some e, db) w i = i
    after_init_sql-keeps (none, db) w i =
        guarded-keeps (reconcile_target_annotation client db) _ w
          (reconcile_target_annotation-keeps store db w i)
          (λ w i.
            guarded-keeps (update_status client store db) _ w
              (update_status-keeps client I fits keeps store db w i) (λ w i. i))

    reconcile_replica-keeps :
        (db : LitestreamReplica) (w : World S)
        → Fits fits db
        → I w
        → I (reconcile_replica client store hash db w).1
    unfolding reconcile_replica
    reconcile_replica-keeps db w (f, g) i =
        guarded-keeps (reconcile_litestream_config client store db) _ w
          (litestream_config-keeps store db w f i)
          (λ w i. after_init_sql-keeps _ _ (init_sql-keeps store db hash w g i))

module _ {S : Type 0} (client : Client S) (c : S) (fits : NamespacedName → Dict → Bool) where
  written-IsCareful :
      (x : Write) (w : World S)
      → is_harmless fits x ≡ true
      → IsCareful client c fits w
      → IsCareful client c fits (written client x w)
  written-IsCareful x w h (t, a) = (rw t refl, rw (h, a) refl)

  -- The cluster that a reconcile of a replica leaves behind, and the harm it does not do.
  pub reconcile-IsCareful :
      (store : ConditionStore) (hash : String → String) (req : NamespacedName)
      → ((db : LitestreamReplica) → client.get_replica req c ≡ ok db → Fits fits db)
      → IsCareful client c fits (reconcile client store hash req (start c)).1
  unfolding reconcile
  reconcile-IsCareful store hash req k = elim (Result-cases (client.get_replica req c)) [
    | inl (db, g) ↦ rw g (
        reconcile_replica-keeps client (IsCareful client c fits) fits written-IsCareful store hash
          db (start c) (k db g) (refl, refl))
    | inr (e, g) ↦ rw g (ground arith)
  ]
