-- ===== src/Restore/Scaling.antt =====
-- When the restore controller scales the workload, and to which count.
use sqlite_operator.Base.{
  ◌≡◌, ◌⊎◌, inl, inr, refl, Option, none, some, List, [], ◌∷◌, arith, pos, ◌<>◌, ℤ,
}
use sqlite_operator.Kube.Errors.{Result, ok, err}
use sqlite_operator.Kube.Client.{Client, World, start}
use sqlite_operator.Api.Replica.{LitestreamReplica, S3Destination}
use sqlite_operator.Api.Restore.{
  RestorePhase, no_phase, pending, pausing, scaling_down, running, validating, scaling_up, complete,
  failed, unknown, LitestreamRestore,
}
use sqlite_operator.Restore.Status.{scale_back_target, fail_restore}
use sqlite_operator.Restore.Phases.{
  job_key, with_job, with_validation_job, reconcile_scaling_down, reconcile_running,
  reconcile_validating,
}
use sqlite_operator.Restore.Reconcile.{
  source_key, dispatch, with_destination, with_source, reconcile_restore,
}
use sqlite_operator.Restore.Trace.{written_phase, scale_targets, writes_of}
use sqlite_operator.Restore.ScaleSteps.{
  IsPausedSource, with_job-RollsBack, with_validation_job-RollsBack, pausing-scale_targets,
  pending-scale_targets, launching-scale_targets, scaling_up-scale_targets,
}

-- The ways in which a reconcile may scale the workload, by the phase that it starts in. The list is
-- that of the counts that it writes.
pub data Scales {S : Type 0} (client : Client S) (restore : LitestreamRestore) (c : S)
    (targets : List (Option ℤ)) (phase : Option RestorePhase) : Type 0 where
  not_at_all : targets ≡ [] → Scales client restore c targets phase
  down :
      restore.status.phase ≡ pausing
      → targets ≡ some (pos 0) ∷ []
      → IsPausedSource client c (client.get_replica (source_key restore) c)
      → Scales client restore c targets phase
  back_on_failure :
      (restore.status.phase ≡ running) ⊎ (restore.status.phase ≡ validating)
      → targets ≡ some (scale_back_target restore) ∷ []
      → phase ≡ some failed
      → Scales client restore c targets phase
  back_at_end :
      restore.status.phase ≡ scaling_up
      → targets ≡ some (scale_back_target restore) ∷ []
      → Scales client restore c targets phase

module _ {S : Type 0} (client : Client S) (restore : LitestreamRestore) (c : S) where
  abbrev ScalesIn : World S → Type 0
  ScalesIn w = Scales client restore c (scale_targets w.sent) (written_phase w.sent)

  rolled_back :
      (w : World S)
      → (restore.status.phase ≡ running) ⊎ (restore.status.phase ≡ validating)
      → (scale_targets w.sent ≡ [])
        ⊎ ((scale_targets w.sent ≡ some (scale_back_target restore) ∷ [])
            × (written_phase w.sent ≡ some failed))
      → ScalesIn w
  rolled_back w p (inl n) = not_at_all n
  rolled_back w p (inr (t, f)) = back_on_failure p t f

  dispatch-Scales :
      (db : LitestreamReplica) (s3 : S3Destination) (p : RestorePhase)
      → restore.status.phase ≡ p
      → client.get_replica (source_key restore) c ≡ ok db
      → ScalesIn (dispatch client p restore db s3 (start c)).1
  unfolding dispatch reconcile_scaling_down reconcile_running reconcile_validating
  dispatch-Scales db s3 no_phase e g = not_at_all (pending-scale_targets client restore db c)
  dispatch-Scales db s3 pending e g = not_at_all (pending-scale_targets client restore db c)
  dispatch-Scales db s3 pausing e g = elim (pausing-scale_targets client restore db c) [
    | inl n ↦ not_at_all n
    | inr (t, s) ↦ down e t (rw g s)
  ]
  dispatch-Scales db s3 scaling_down e g =
      not_at_all (launching-scale_targets client restore db _ s3 c)
  dispatch-Scales db s3 running e g =
      let r = client.get_job (job_key restore restore.status.job_name) c in
      rolled_back (with_job client restore db r (start c)).1 (inl e)
        (with_job-RollsBack client restore db r c)
  dispatch-Scales db s3 validating e g =
      let r = client.get_job (job_key restore (restore.metadata.name <> "-validate")) c in
      rolled_back (with_validation_job client restore db r (start c)).1 (inr e)
        (with_validation_job-RollsBack client restore db r c)
  dispatch-Scales db s3 scaling_up e g = elim (scaling_up-scale_targets client restore db c) [
    | inl n ↦ not_at_all n
    | inr t ↦ back_at_end e t
  ]
  dispatch-Scales db s3 complete e g = not_at_all refl
  dispatch-Scales db s3 failed e g = not_at_all refl
  dispatch-Scales db s3 (unknown t) e g = not_at_all refl

  with_destination-Scales :
      (db : LitestreamReplica) (d : Option S3Destination)
      → client.get_replica (source_key restore) c ≡ ok db
      → ScalesIn (with_destination client restore db d (start c)).1
  unfolding with_destination fail_restore
  with_destination-Scales db none g = not_at_all refl
  with_destination-Scales db (some s3) g = dispatch-Scales db s3 restore.status.phase refl g

  with_source-Scales :
      (r : Result LitestreamReplica)
      → client.get_replica (source_key restore) c ≡ r
      → ScalesIn (with_source client restore r (start c)).1
  unfolding with_source fail_restore
  with_source-Scales (ok db) g = with_destination-Scales db _ g
  with_source-Scales (err e) g = not_at_all refl

  -- A reconcile scales the workload at most once: to 0 in the phase Pausing, with the source paused
  -- and the paused text in its ConfigMap; back to the recorded count, or 1, in Running and
  -- Validating beside the status Failed, and in ScalingUp; and in no other phase.
  pub writes_of-Scales :
      Scales client restore c
        (scale_targets (writes_of client restore c))
        (written_phase (writes_of client restore c))
  unfolding reconcile_restore
  writes_of-Scales =
      let nothing_sent : Scales client restore c [] none = not_at_all refl in
      ground (arith, with_source-Scales (client.get_replica (source_key restore) c) refl)
