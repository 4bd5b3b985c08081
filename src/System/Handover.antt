-- ===== src/System/Handover.antt =====
-- While a restore has its source scaled down, the Litestream of the source is paused.
use sqlite_operator.Base.{
  String, ◌≡◌, ◌≢◌, ◌∙◌, sym, ap, refl, Bool, true, false, arith, Bool-cases, inl, inr,
}
use sqlite_operator.Base.Dict.{index}
use sqlite_operator.Kube.Errors.{Result, ok, err, is_not_found}
use sqlite_operator.Kube.Objects.{ConfigMap, NamespacedName}
use sqlite_operator.Kube.Client.{Client, start}
use sqlite_operator.Api.Replica.{LitestreamReplica}
use sqlite_operator.Api.Restore.{running, validating, RestorePhase, scaling_down, LitestreamRestore}
use sqlite_operator.Restore.Annotations.{replica_key}
use sqlite_operator.Restore.Phases.{is_paused_config, config_key}
use sqlite_operator.Restore.Reconcile.{
  with_restore, active_destination, is_terminal, source_key, dispatch, with_destination,
  with_source, reconcile_restore,
}
use sqlite_operator.System.Configs.{
  needs_config, paused_text, KeepsConfigs, is_config_paused, config_keys-all_leave_config,
  replay-is_config_paused, harmless-all_leave_config, leaves_config, same_key, config_of-key,
  init_sql-same_key,
}
use sqlite_operator.System.Turns.{
  any_config, answer_needs, paused-annotated, Turns, opened, restore_turn, replica_turn, other,
  Turns-IsGuarded,
}
use sqlite_operator.System.Replay.Replicas.{Fits, reconcile-IsCareful}
use sqlite_operator.Replica.ConfigMaps.{litestream_config}
use sqlite_operator.Replica.Reconcile as Replicas
use sqlite_operator.Restore.Reconcile as Restores
use sqlite_operator.System.Replay.{AllAccepted, config_of, key_of}
use sqlite_operator.System.Replay.Restores.{reconcile_restore-Follows}
use sqlite_operator.System.Quiet.{needs_pause}
use sqlite_operator.System.Store.{is_paused, IsStore, replay-Stored, replay-keeps_restore}
use sqlite_operator.Replica.Conditions.{ConditionStore}
use sqlite_operator.System.Draining.{writes_of-needs_config, reconcile_restore-config}

abbrev pub answer_drains : Result LitestreamRestore → Bool
answer_drains (ok r) = needs_config r.status.phase
answer_drains (err e) = false

-- Whether the restore that is stored is between ScalingDown and Validating.
abbrev pub drains : {S : Type 0} → Client S → NamespacedName → S → Bool
drains client key c = answer_drains (client.get_restore key c)

module _ {S : Type 0} (client : Client S) (store : ConditionStore) (hash : String → String)
    (restore_key source : NamespacedName) (lawful : IsStore client restore_key source)
    (keeping : KeepsConfigs client source restore_key) (distinct : restore_key ≢ source) where
  abbrev IsHeld : S → Type 0
  IsHeld c = drains client restore_key c ≡ true → is_config_paused client source c ≡ true

  seen-is_config_paused :
      (c : S) (r : LitestreamRestore)
      → client.get_restore restore_key c ≡ ok r
      → (db : LitestreamReplica) × (client.get_replica (source_key r) c ≡ ok db)
        × (paused_text (client.get_config_map (config_key db) c) ≡ true)
      → is_config_paused client source c ≡ true
  seen-is_config_paused c r g (db, s, t) =
      let own = keeping.named c (source_key r) db s ∙ lawful.same_source c r g in
      ap (λ k. paused_text (client.get_config_map (config_of k) c)) (sym own) ∙ t

  reconcile_restore-IsHeld :
      (c : S) (r : LitestreamRestore)
      → client.get_restore restore_key c ≡ ok r
      → AllAccepted client (reconcile_restore client r (start c)).1.sent c
      → IsHeld c
      → IsHeld (reconcile_restore client r (start c)).1.cluster
  reconcile_restore-IsHeld c r g a i n =
      let sent = (reconcile_restore client r (start c)).1.sent in
      let (led, once, own) = reconcile_restore-Follows client c r in
      let kept = replay-Stored client restore_key source lawful c r sent g once a in
      let now = ap (drains client restore_key) led ∙ ap answer_drains kept.stored in
      let needed = ap needs_config kept.in_phase ∙ sym now ∙ n in
      let before : is_config_paused client source c ≡ true =
        elim (writes_of-needs_config client source r c needed) [
          | inl u ↦ i (ap answer_drains g ∙ u)
          | inr (p, w) ↦
              seen-is_config_paused c r g (reconcile_restore-config client source r c p w)
        ] in
      let named = keeping.restore_named c r g in
      let leaves =
        config_keys-all_leave_config client source (key_of r) sent (λ e. distinct (sym named ∙ e))
          own in
      ap (is_config_paused client source) led
      ∙ replay-is_config_paused client source restore_key keeping c sent leaves before

  with_restore-IsHeld :
      (c : S) (x : Result LitestreamRestore)
      → client.get_restore restore_key c ≡ x
      → AllAccepted client (with_restore client x (start c)).1.sent c
      → IsHeld c
      → IsHeld (with_restore client x (start c)).1.cluster
  with_restore-IsHeld c (ok r) g a i n = reconcile_restore-IsHeld c r g a i n
  with_restore-IsHeld c (err e) g a i n = elim (Bool-cases (is_not_found e)) [
    | inl f ↦ rw f (i (rw f at n))
    | inr f ↦ rw f (i (rw f at n))
  ]

  restore-IsHeld :
      (c : S)
      → AllAccepted client (Restores.reconcile client restore_key (start c)).1.sent c
      → IsHeld c
      → IsHeld (Restores.reconcile client restore_key (start c)).1.cluster
  unfolding Restores.reconcile
  restore-IsHeld c a i n = with_restore-IsHeld c (client.get_restore restore_key c) refl a i n

  -- The ConfigMaps of a replica, of which the source is paused.
  replica-Fits :
      (c : S) (req : NamespacedName) (db : LitestreamReplica)
      → is_paused client restore_key source c ≡ true
      → client.get_replica req c ≡ ok db
      → Fits (leaves_config client source) db
  unfolding index litestream_config
  replica-Fits c req db p g =
      let own = keeping.named c req db g in
      (
        elim (Bool-cases (same_key (config_of (replica_key db)) (config_of source))) [
          | inr f ↦ rw f refl
          | inl t ↦
              let here = config_of-key (replica_key db) source t in
              let found = ap (λ k. client.get_replica k c) (sym here ∙ own) ∙ g in
              let paused = paused-annotated client restore_key source lawful c db p found in
              rw paused (ground (arith, t))
        ],
        rw (init_sql-same_key db source) refl,
      )

  replica-IsHeld :
      (c : S) (req : NamespacedName)
      → (drains client restore_key c ≡ true → is_paused client restore_key source c ≡ true)
      → IsHeld c
      → IsHeld (Replicas.reconcile client store hash req (start c)).1.cluster
  replica-IsHeld c req p i n =
      let sent = (Replicas.reconcile client store hash req (start c)).1.sent in
      let (led, mild) =
        reconcile-IsCareful client c any_config store hash req (λ db g. (refl, refl)) in
      let same = replay-keeps_restore client restore_key source lawful c any_config sent mild in
      let needed = sym (ap (drains client restore_key) led ∙ ap answer_drains same) ∙ n in
      let (_, careful) =
        reconcile-IsCareful client c (leaves_config client source) store hash req
          (λ db g. replica-Fits c req db (p needed) g) in
      ap (is_config_paused client source) led
      ∙ replay-is_config_paused client source restore_key keeping c sent
          (harmless-all_leave_config client source sent careful) (i needed)

  needs_config-needs_pause : (p : RestorePhase) → needs_config p ≡ true → needs_pause p ≡ true
  unfolding needs_config needs_pause
  needs_config-needs_pause scaling_down n = refl
  needs_config-needs_pause running n = refl
  needs_config-needs_pause validating n = refl
  needs_config-needs_pause _ n = cc

  answer_drains-answer_needs :
      (x : Result LitestreamRestore) → answer_drains x ≡ true → answer_needs x ≡ true
  answer_drains-answer_needs (ok r) n = needs_config-needs_pause r.status.phase n
  answer_drains-answer_needs (err e) n = cc n

  drains-is_paused :
      {c : S}
      → Turns client store hash restore_key source c
      → drains client restore_key c ≡ true
      → is_paused client restore_key source c ≡ true
  drains-is_paused {c} t d =
      Turns-IsGuarded client store hash restore_key source lawful t
        (answer_drains-answer_needs (client.get_restore restore_key c) d)

  Turns-IsHeld : {c : S} → Turns client store hash restore_key source c → IsHeld c
  Turns-IsHeld (opened c o) d =
      let needed = answer_drains-answer_needs (client.get_restore restore_key c) d in cc (o, needed)
  Turns-IsHeld (restore_turn {c} t a) d = restore-IsHeld c a (Turns-IsHeld t) d
  Turns-IsHeld (replica_turn {c} t req) d =
      replica-IsHeld c req (drains-is_paused t) (Turns-IsHeld t) d
  Turns-IsHeld (other {c} t c' same keeps holds) d =
      ap paused_text holds ∙ (Turns-IsHeld t (sym (ap answer_drains same) ∙ d))

  -- On a server that keeps the laws of IsStore and KeepsConfigs, after any turns, while the restore
  -- that is stored is between ScalingDown and Validating, the ConfigMap of its source, where it can be
  -- read, holds the paused text; the restore is taken not to have both the name and the namespace of
  -- its source. The turns are reconciles of this restore in which no patch of its status is refused,
  -- reconciles of any replica, and changes by others, which are taken to leave the restore and the
  -- ConfigMap of its source as they are and not to take the pause off; another restore of the source
  -- takes none.
  pub Turns-held :
      {c : S} (cm : ConfigMap)
      → Turns client store hash restore_key source c
      → drains client restore_key c ≡ true
      → client.get_config_map (config_of source) c ≡ ok cm
      → is_paused_config cm ≡ true
  Turns-held cm t d g = sym (ap paused_text g) ∙ Turns-IsHeld t d
