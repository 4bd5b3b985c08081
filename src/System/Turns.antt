-- ===== src/System/Turns.antt =====
-- Both controllers, and others, take turns on one cluster: while a restore needs it, its source is paused.
use sqlite_operator.Base.{
  String, ◌≡◌, ◌∙◌, sym, ap, refl, Bool, true, false, or_default, arith, Bool-cases, inl, inr,
}
use sqlite_operator.Base.Dict.{Dict}
use sqlite_operator.Kube.Errors.{is_not_found, Result, ok, err}
use sqlite_operator.Kube.Objects.{NamespacedName}
use sqlite_operator.Kube.Client.{Client, start, World}
use sqlite_operator.Api.Replica.{LitestreamReplica, annotation_pause}
use sqlite_operator.Api.Restore.{LitestreamRestore}
use sqlite_operator.Config.{paused_config}
use sqlite_operator.Restore.Annotations.{has_annotation}
use sqlite_operator.Restore.Reconcile as Restores
use sqlite_operator.Restore.Reconcile.{
  with_restore, is_terminal, source_key, with_source, reconcile_restore,
}
use sqlite_operator.Restore.Trace.{written_phase}
use sqlite_operator.Replica.Conditions.{ConditionStore}
use sqlite_operator.Replica.ConfigMaps.{litestream_config}
use sqlite_operator.Replica.Reconcile as Replicas
use sqlite_operator.System.Replay.Restores.{with_source-Follows, reconcile_restore-Follows}
use sqlite_operator.System.Replay.Replicas.{reconcile-IsCareful}
use sqlite_operator.System.Store.{
  is_paused, IsStore, replay-is_paused, replay-Stored, replay-keeps_restore, replay-keeps_pause,
}
use sqlite_operator.System.Quiet.{needs_pause, with_source-IsQuiet}
use sqlite_operator.System.Replay.{AllAccepted, config_of}
use sqlite_operator.System.Begin.{with_source-Pauses}

module _ {S : Type 0} (client : Client S) (restore_key source : NamespacedName)
    (lawful : IsStore client restore_key source) where
  pub paused-annotated :
      (c : S) (db : LitestreamReplica)
      → is_paused client restore_key source c ≡ true
      → client.get_replica source c ≡ ok db
      → has_annotation db annotation_pause ≡ true
  paused-annotated c db p g = rw g at p

  module _ (c : S) (r : LitestreamRestore) (g : client.get_restore restore_key c ≡ ok r) where
    abbrev after : Result LitestreamReplica → World S
    after x = (with_source client r x (start c)).1

    abbrev last_needs : World S → Bool
    last_needs w = needs_pause (or_default (written_phase w.sent) r.status.phase)

    -- Outside the phases that need the pause.
    fresh-is_paused :
        (x : Result LitestreamReplica)
        → client.get_replica source c ≡ x
        → needs_pause r.status.phase ≡ false
        → last_needs (after x) ≡ true
        → is_paused client restore_key source (after x).cluster ≡ true
    unfolding with_source needs_pause
    fresh-is_paused (ok db) s u n = with_source-Pauses client restore_key source lawful r db c s u n
    fresh-is_paused (err e) s u n = cc n

    -- In a phase that needs the pause.
    underway-is_paused :
        (x : Result LitestreamReplica)
        → client.get_replica source c ≡ x
        → needs_pause r.status.phase ≡ true
        → is_paused client restore_key source c ≡ true
        → last_needs (after x) ≡ true
        → is_paused client restore_key source (after x).cluster ≡ true
    underway-is_paused x s u p n =
        let quiet =
          with_source-IsQuiet client r c u x (λ db e. paused-annotated c db p (s ∙ e)) n in
        let kept = replay-is_paused client restore_key source lawful c (after x).sent quiet p in
        let led = (with_source-Follows client c r x (start c) refl (refl, refl)).0 in
        ap (is_paused client restore_key source) led ∙ kept

    reconcile_restore-is_paused :
        (needs_pause r.status.phase ≡ true → is_paused client restore_key source c ≡ true)
        → last_needs (reconcile_restore client r (start c)).1 ≡ true
        → is_paused client restore_key source (reconcile_restore client r (start c)).1.cluster
          ≡ true
    unfolding reconcile_restore
    reconcile_restore-is_paused i n =
        let x = client.get_replica (source_key r) c in
        let s = ap (λ k. client.get_replica k c) (sym (lawful.same_source c r g)) in
        elim (Bool-cases (needs_pause r.status.phase)) [
          | inl u ↦ ground (arith, n, i, underway-is_paused x s u (i u))
          | inr u ↦ ground (arith, n, i, u, fresh-is_paused x s u)
        ]

abbrev pub any_config : NamespacedName → Dict → Bool
any_config key content = true

abbrev pub answer_needs : Result LitestreamRestore → Bool
answer_needs (ok r) = needs_pause r.status.phase
answer_needs (err e) = false

-- Whether the restore that is stored is in a phase that needs the pause.
abbrev pub restore_needs : {S : Type 0} → Client S → NamespacedName → S → Bool
restore_needs client key c = answer_needs (client.get_restore key c)

module _ {S : Type 0} (client : Client S) (store : ConditionStore) (hash : String → String)
    (restore_key source : NamespacedName) where
  -- The clusters that turns lead to: reconciles of the restore in which no patch of its status is
  -- refused, reconciles of any replica, and changes by others, which leave the restore and the
  -- ConfigMap of its source as they are and do not take the pause off the source. Reconciles of
  -- another restore of the source are none of these.
  pub data Turns : S → Type 0 where
    opened : (c : S) → restore_needs client restore_key c ≡ false → Turns c
    restore_turn :
        {c : S}
        → Turns c
        → AllAccepted client (Restores.reconcile client restore_key (start c)).1.sent c
        → Turns (Restores.reconcile client restore_key (start c)).1.cluster
    replica_turn :
        {c : S}
        → Turns c
        → (req : NamespacedName)
        → Turns (Replicas.reconcile client store hash req (start c)).1.cluster
    other :
        {c : S}
        → Turns c
        → (c' : S) → client.get_restore restore_key c' ≡ client.get_restore restore_key c
        → (is_paused client restore_key source c ≡ true
            → is_paused client restore_key source c' ≡ true)
        → client.get_config_map (config_of source) c' ≡ client.get_config_map (config_of source) c
        → Turns c'

  module _ (lawful : IsStore client restore_key source) where
    abbrev IsGuarded : S → Type 0
    IsGuarded c =
        restore_needs client restore_key c ≡ true → is_paused client restore_key source c ≡ true

    reconcile_restore-IsGuarded :
        (c : S) (r : LitestreamRestore)
        → client.get_restore restore_key c ≡ ok r
        → AllAccepted client (reconcile_restore client r (start c)).1.sent c
        → IsGuarded c
        → IsGuarded (reconcile_restore client r (start c)).1.cluster
    reconcile_restore-IsGuarded c r g a i n =
        let sent = (reconcile_restore client r (start c)).1.sent in
        let (led, once, own) = reconcile_restore-Follows client c r in
        let kept = replay-Stored client restore_key source lawful c r sent g once a in
        let now = ap (restore_needs client restore_key) led ∙ ap answer_needs kept.stored in
        reconcile_restore-is_paused client restore_key source lawful c r g
          (λ u. i (ap answer_needs g ∙ u)) (ap needs_pause kept.in_phase ∙ sym now ∙ n)

    with_restore-IsGuarded :
        (c : S) (x : Result LitestreamRestore)
        → client.get_restore restore_key c ≡ x
        → AllAccepted client (with_restore client x (start c)).1.sent c
        → IsGuarded c
        → IsGuarded (with_restore client x (start c)).1.cluster
    with_restore-IsGuarded c (ok r) g a i n = reconcile_restore-IsGuarded c r g a i n
    with_restore-IsGuarded c (err e) g a i n = elim (Bool-cases (is_not_found e)) [
      | inl f ↦ rw f (i (rw f at n))
      | inr f ↦ rw f (i (rw f at n))
    ]

    restore-IsGuarded :
        (c : S)
        → AllAccepted client (Restores.reconcile client restore_key (start c)).1.sent c
        → IsGuarded c
        → IsGuarded (Restores.reconcile client restore_key (start c)).1.cluster
    unfolding Restores.reconcile
    restore-IsGuarded c a i n =
        with_restore-IsGuarded c (client.get_restore restore_key c) refl a i n

    replica-IsGuarded :
        (c : S) (req : NamespacedName)
        → IsGuarded c
        → IsGuarded (Replicas.reconcile client store hash req (start c)).1.cluster
    replica-IsGuarded c req i n =
        let sent = (Replicas.reconcile client store hash req (start c)).1.sent in
        let (led, careful) =
          reconcile-IsCareful client c any_config store hash req (λ db g. (refl, refl)) in
        let same =
          replay-keeps_restore client restore_key source lawful c any_config sent careful in
        let needed = sym (ap (restore_needs client restore_key) led ∙ ap answer_needs same) ∙ n in
        ap (is_paused client restore_key source) led
        ∙ replay-keeps_pause client restore_key source lawful c any_config sent careful (i needed)

    pub Turns-IsGuarded : {c : S} → Turns c → IsGuarded c
    Turns-IsGuarded (opened c o) n = cc (o, n)
    Turns-IsGuarded (restore_turn {c} t a) n = restore-IsGuarded c a (Turns-IsGuarded t) n
    Turns-IsGuarded (replica_turn {c} t req) n = replica-IsGuarded c req (Turns-IsGuarded t) n
    Turns-IsGuarded (other {c} t c' same keeps holds) n =
        keeps (Turns-IsGuarded t (sym (ap answer_needs same) ∙ n))

    -- On a server that keeps the laws of IsStore, after any turns, while the restore that is stored is
    -- between Pausing and Validating, the replica controller renders the paused text for its source.
    -- The turns are reconciles of this restore in which no patch of its status is refused, reconciles of
    -- any replica, and changes by others, which are taken to leave the restore and the ConfigMap of its
    -- source as they are and not to take the pause off; another restore of the source takes none.
    pub Turns-paused :
        {c : S} (db : LitestreamReplica)
        → Turns c
        → restore_needs client restore_key c ≡ true
        → client.get_replica source c ≡ ok db
        → litestream_config db ≡ paused_config
    unfolding litestream_config
    Turns-paused {c} db t n g =
        rw (paused-annotated client restore_key source lawful c db (Turns-IsGuarded t n) g) refl
