-- ===== src/Restore/Recovery.antt =====
-- What a failed restore Job or validation Job leads to.
use sqlite_operator.Base.{
  String, ◌≡◌, ◌⊎◌, inl, inr, refl, true, false, some, [], ◌∷◌, arith, exceeds, pos, ◌<>◌,
}
use sqlite_operator.Kube.Errors.{ok}
use sqlite_operator.Kube.Objects.{Job}
use sqlite_operator.Kube.Client.{Client, World, start, WorkloadTarget}
use sqlite_operator.Api.Replica.{LitestreamReplica, S3Destination, annotation_pause}
use sqlite_operator.Api.Restore.{RestorePhase, running, validating, failed, LitestreamRestore}
use sqlite_operator.Workload.{running_replicas, has_replicas, target_for_restore}
use sqlite_operator.Restore.Annotations.{has_annotation, replica_key, resume_replication}
use sqlite_operator.Restore.Status.{scale_back_target, fail_restore_with_cleanup}
use sqlite_operator.Restore.Phases.{
  job_key, job_verdict, broken, judge_job, judge_validation, with_job, with_validation_job,
  reconcile_running, reconcile_validating,
}
use sqlite_operator.Restore.Reconcile.{
  is_terminal, active_destination, source_key, dispatch, with_destination, with_source,
  reconcile_restore,
}
use sqlite_operator.Restore.Trace.{written_phase, scale_targets, patches_replica}
use sqlite_operator.Restore.Progress.{IsOk}

-- The Job that the phase watches.
abbrev pub watched_job : LitestreamRestore → RestorePhase → String
watched_job restore running = restore.status.job_name
watched_job restore _ = restore.metadata.name <> "-validate"

-- The state in which a restore fails: in Running or Validating, over a paused source that can be
-- looked up at any time, a workload that was scaled to 0, and a Job that is broken.
pub record IsBroken {S : Type 0} (client : Client S) (restore : LitestreamRestore) (c : S)
    : Type 0 where
  pub source : LitestreamReplica
  pub s3 : S3Destination
  pub target : WorkloadTarget
  pub job : Job
  pub message : String
  pub watching : (restore.status.phase ≡ running) ⊎ (restore.status.phase ≡ validating)
  pub found : client.get_replica (source_key restore) c ≡ ok source
  pub backed_up : active_destination source.spec.backup ≡ some s3
  pub targeted : target_for_restore client source c ≡ ok target
  pub stopped : running_replicas target ≡ pos 0
  pub scaled : has_replicas client target (scale_back_target restore) ≡ false
  pub wanted : exceeds (scale_back_target restore) 0 ≡ true
  pub paused : has_annotation source annotation_pause ≡ true
  pub reachable : (c' : S) → IsOk (client.get_replica (replica_key source) c')
  pub watched :
      client.get_job (job_key restore (watched_job restore restore.status.phase)) c ≡ ok job
  pub is_broken : job_verdict job.conditions ≡ broken message

-- What is sent then: the workload goes back to its count, the source is patched, and the restore has
-- failed.
abbrev pub Recovers : {S : Type 0} → LitestreamRestore → World S → Type 0
Recovers restore w =
    (scale_targets w.sent ≡ some (scale_back_target restore) ∷ [])
    × (patches_replica w.sent ≡ true)
    × (written_phase w.sent ≡ some failed)

module _ {S : Type 0} (client : Client S) (restore : LitestreamRestore) (c : S)
    (b : IsBroken client restore c) where
  resume-patches_replica :
      (w : World S)
      → (patches_replica (resume_replication client b.source w).1.sent ≡ true)
        × (scale_targets (resume_replication client b.source w).1.sent ≡ scale_targets w.sent)
  unfolding resume_replication
  resume-patches_replica w = grind (arith, b.paused, b.reachable)

  cleanup-Recovers :
      (m : String)
      → Recovers restore (fail_restore_with_cleanup client restore b.source m (start c)).1
  unfolding fail_restore_with_cleanup
  cleanup-Recovers m =
      rw (b.targeted, b.stopped, b.wanted) (grind (arith, b.scaled, resume-patches_replica))

  running-Recovers :
      restore.status.phase ≡ running
      → Recovers restore (dispatch client running restore b.source b.s3 (start c)).1
  unfolding dispatch reconcile_running with_job judge_job
  running-Recovers r = let g = rw r at b.watched in rw (g, b.is_broken) (cleanup-Recovers _)

  validating-Recovers :
      restore.status.phase ≡ validating
      → Recovers restore (dispatch client validating restore b.source b.s3 (start c)).1
  unfolding dispatch reconcile_validating with_validation_job judge_validation
  validating-Recovers v = let g = rw v at b.watched in rw (g, b.is_broken) (cleanup-Recovers _)

  dispatch-Recovers :
      (p : RestorePhase)
      → restore.status.phase ≡ p
      → (p ≡ running) ⊎ (p ≡ validating)
      → (is_terminal p ≡ false)
        × Recovers restore (dispatch client p restore b.source b.s3 (start c)).1
  dispatch-Recovers running e h = (refl, running-Recovers e)
  dispatch-Recovers validating e h = (refl, validating-Recovers e)
  dispatch-Recovers _ e (inl h) = cc h
  dispatch-Recovers _ e (inr h) = cc h

  -- Where the Job that Running or Validating watches is broken, the source is paused and can be looked
  -- up at every state of the cluster, and the workload has no running replicas and another count than
  -- the one to go back to, which is more than 0, the reconcile scales the workload to that count once,
  -- patches the source, and writes the status Failed.
  pub reconcile_restore-Recovers : Recovers restore (reconcile_restore client restore (start c)).1
  unfolding reconcile_restore with_source with_destination
  reconcile_restore-Recovers =
      let (t, r) = dispatch-Recovers restore.status.phase refl b.watching in
      rw (t, b.found, b.backed_up) r
