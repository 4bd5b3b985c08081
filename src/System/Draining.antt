-- ===== src/System/Draining.antt =====
-- A restore enters ScalingDown only where the ConfigMap of its source is paused.
use sqlite_operator.Base.{
  String, ◌≡◌, ◌⊎◌, ◌∙◌, sym, ap, refl, true, false, some, or_default, arith, Option-cases, inl,
  inr,
}
use sqlite_operator.Kube.Errors.{Result, ok, err}
use sqlite_operator.Kube.Objects.{NamespacedName}
use sqlite_operator.Kube.Client.{Client, start}
use sqlite_operator.Api.Replica.{LitestreamReplica}
use sqlite_operator.Api.Restore.{pausing, scaling_down, LitestreamRestore, LitestreamRestoreStatus}
use sqlite_operator.Restore.Phases.{config_key}
use sqlite_operator.Restore.Machine.{
  StatusStep, begin, drain, launch, validate, return, finish, give_up, roll_back,
}
use sqlite_operator.Restore.Reconcile.{
  active_destination, is_terminal, source_key, dispatch, with_destination, with_source,
  reconcile_restore,
}
use sqlite_operator.Restore.Refinement.{writes_of-StatusStep}
use sqlite_operator.Restore.Status.{fail_restore}
use sqlite_operator.Restore.Trace.{
  written_status, written_phase, phase_of, written_phase_of, writes_of,
}
use sqlite_operator.System.Configs.{needs_config, paused_text, pausing-config}

-- A step into the phases that need the ConfigMap comes from them, or from Pausing.
StatusStep-needs_config :
    (name : String) (old new : LitestreamRestoreStatus)
    → StatusStep name old new
    → needs_config new.phase ≡ true
    → (needs_config old.phase ≡ true) ⊎ ((old.phase ≡ pausing) × (new.phase ≡ scaling_down))
unfolding needs_config
StatusStep-needs_config name old new (begin p a b e) n = ground arith
StatusStep-needs_config name old new (drain p e) n = inr (p, ap (λ s. s.phase) e)
StatusStep-needs_config name old new (launch p a e) n = inl (rw p refl)
StatusStep-needs_config name old new (validate p e) n = inl (rw p refl)
StatusStep-needs_config name old new (return p e) n = ground arith
StatusStep-needs_config name old new (finish p a e) n = ground arith
StatusStep-needs_config name old new (give_up p a b e) n = ground arith
StatusStep-needs_config name old new (roll_back p a e) n = ground arith

module _ {S : Type 0} (client : Client S) (source : NamespacedName) (restore : LitestreamRestore)
    (c : S) where
  pub writes_of-needs_config :
      needs_config (or_default (written_phase (writes_of client restore c)) restore.status.phase)
        ≡ true
      → (needs_config restore.status.phase ≡ true)
        ⊎ ((restore.status.phase ≡ pausing)
            × (written_phase (writes_of client restore c) ≡ some scaling_down))
  writes_of-needs_config n =
      let phases = written_phase_of (writes_of client restore c) in
      elim (Option-cases (written_status (writes_of client restore c))) [
        | inl w ↦ inl (rw (phases ∙ ap phase_of w) at n)
        | inr (s, w) ↦
            let written = phases ∙ ap phase_of w in
            let step = writes_of-StatusStep client restore c s w in
            elim (StatusStep-needs_config _ _ _ step (rw written at n)) [
              | inl o ↦ inl o
              | inr (p, q) ↦ inr (p, written ∙ ap some q)
            ]
      ]

  with_source-config :
      (x : Result LitestreamReplica)
      → restore.status.phase ≡ pausing
      → written_phase (with_source client restore x (start c)).1.sent ≡ some scaling_down
      → (db : LitestreamReplica) × (x ≡ ok db)
        × (paused_text (client.get_config_map (config_key db) c) ≡ true)
  unfolding with_source with_destination fail_restore dispatch
  with_source-config (err e) p h = cc h
  with_source-config (ok db) p h = elim (Option-cases (active_destination db.spec.backup)) [
    | inl d ↦ cc (rw d at h)
    | inr (s3, d) ↦
        let here =
          ap (λ q. written_phase (dispatch client q restore db s3 (start c)).1.sent) (sym p)
          ∙ (rw d at h) in
        (db, refl, pausing-config client source restore db c here)
  ]

  reconcile_restore-open :
      is_terminal restore.status.phase ≡ false
      → reconcile_restore client restore (start c)
        ≡ with_source client restore (client.get_replica (source_key restore) c) (start c)
  unfolding reconcile_restore
  reconcile_restore-open t = rw t refl

  -- A restore that enters ScalingDown has seen the paused text in the ConfigMap of its source.
  pub reconcile_restore-config :
      restore.status.phase ≡ pausing
      → written_phase (writes_of client restore c) ≡ some scaling_down
      → (db : LitestreamReplica) × (client.get_replica (source_key restore) c ≡ ok db)
        × (paused_text (client.get_config_map (config_key db) c) ≡ true)
  reconcile_restore-config p h =
      let opened = reconcile_restore-open (ap is_terminal p) in
      with_source-config (client.get_replica (source_key restore) c) p
        (ap (λ r. written_phase r.1.sent) (sym opened) ∙ h)
