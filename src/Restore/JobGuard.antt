-- ===== src/Restore/JobGuard.antt =====
-- When the restore controller creates a Job.
use sqlite_operator.Base.{
  ◌≡◌, ◌⊎◌, inl, inr, refl, true, false, String, arith, exceeds, Option-cases,
}
use sqlite_operator.Kube.Errors.{Result, ok, err, is_not_found}
use sqlite_operator.Kube.Objects.{Job}
use sqlite_operator.Kube.Client.{Client, World, start, WorkloadTarget}
use sqlite_operator.Api.Replica.{LitestreamReplica, S3Destination}
use sqlite_operator.Api.Restore.{
  RestorePhase, no_phase, pending, pausing, scaling_down, running, validating, scaling_up, complete,
  failed, unknown, LitestreamRestore,
}
use sqlite_operator.Workload.{running_replicas, target_for_restore}
use sqlite_operator.Restore.Status.{fail_restore, fail_restore_with_cleanup}
use sqlite_operator.Restore.Phases.{
  JobVerdict, succeeded, still_running, broken, judge_job, with_job, await_pods, scale_down,
  record_replicas, pause_with, reconcile_pending, reconcile_pausing, reconcile_scaling_down,
  reconcile_running, reconcile_scaling_up,
}
use sqlite_operator.Restore.Reconcile.{
  active_destination, source_key, dispatch, with_destination, with_source, reconcile_restore,
}
use sqlite_operator.Restore.Trace.{writes_of, creates_job}

-- No pod is left: the workload is gone, or has no running replicas.
abbrev pub IsAtRest : Result WorkloadTarget → Type 0
IsAtRest (ok wt) = exceeds (running_replicas wt) 0 ≡ false
IsAtRest (err e) = is_not_found e ≡ true

module _ {S : Type 0} (client : Client S) (restore : LitestreamRestore)
    (db : LitestreamReplica) where
  cleanup-creates_job :
      (m : String) (w : World S)
      → creates_job (fail_restore_with_cleanup client restore db m w).1.sent ≡ creates_job w.sent
  unfolding fail_restore_with_cleanup
  cleanup-creates_job m w = ground arith

  judge_job-creates_job :
      (v : JobVerdict) (w : World S)
      → creates_job (judge_job client restore db v w).1.sent ≡ creates_job w.sent
  unfolding judge_job
  judge_job-creates_job succeeded w = ground arith
  judge_job-creates_job still_running w = refl
  judge_job-creates_job (broken m) w = cleanup-creates_job _ w

  with_job-creates_job :
      (r : Result Job) (w : World S)
      → creates_job (with_job client restore db r w).1.sent ≡ creates_job w.sent
  unfolding with_job
  with_job-creates_job (ok job) w = judge_job-creates_job _ w
  with_job-creates_job (err e) w = ground (arith, cleanup-creates_job "restore Job not found" w)

  await_pods-IsAtRest :
      (r : Result WorkloadTarget) (s3 : S3Destination) (c : S)
      → creates_job (await_pods client restore db s3 r (start c)).1.sent ≡ true
      → IsAtRest r
  unfolding await_pods
  await_pods-IsAtRest (ok wt) s3 c h = ground arith
  await_pods-IsAtRest (err e) s3 c h = ground arith

  pausing-creates_job :
      (c : S) → creates_job (reconcile_pausing client restore db (start c)).1.sent ≡ false
  unfolding reconcile_pausing scale_down
  pausing-creates_job c = ground arith

  pending-creates_job :
      (c : S) → creates_job (reconcile_pending client restore db (start c)).1.sent ≡ false
  unfolding reconcile_pending record_replicas pause_with
  pending-creates_job c = ground arith

  scaling_up-creates_job :
      (c : S) → creates_job (reconcile_scaling_up client restore db (start c)).1.sent ≡ false
  unfolding reconcile_scaling_up
  scaling_up-creates_job c = ground arith

-- What the reconciler has seen where it launches the restore Job: a source, and no pod left of its
-- workload.
abbrev pub SeesRest : {S : Type 0} → Client S → LitestreamRestore → S → Type 0
SeesRest client restore c =
    (db : LitestreamReplica) × (client.get_replica (source_key restore) c ≡ ok db)
    × IsAtRest (target_for_restore client db c)

module _ {S : Type 0} (client : Client S) (restore : LitestreamRestore) (c : S) where
  dispatch-creates_job :
      (db : LitestreamReplica) (s3 : S3Destination) (p : RestorePhase)
      → creates_job (dispatch client p restore db s3 (start c)).1.sent ≡ true
      → (p ≡ validating) ⊎ ((p ≡ scaling_down) × IsAtRest (target_for_restore client db c))
  unfolding dispatch reconcile_scaling_down reconcile_running
  dispatch-creates_job db s3 no_phase h = cc (pending-creates_job client restore db c)
  dispatch-creates_job db s3 pending h = cc (pending-creates_job client restore db c)
  dispatch-creates_job db s3 pausing h = cc (pausing-creates_job client restore db c)
  dispatch-creates_job db s3 scaling_down h =
      inr (refl, await_pods-IsAtRest client restore db _ s3 c h)
  dispatch-creates_job db s3 running h =
      cc (with_job-creates_job client restore db (client.get_job _ c) (start c))
  dispatch-creates_job db s3 validating h = inl refl
  dispatch-creates_job db s3 scaling_up h = cc (scaling_up-creates_job client restore db c)
  dispatch-creates_job db s3 complete h = cc
  dispatch-creates_job db s3 failed h = cc
  dispatch-creates_job db s3 (unknown t) h = cc

  with_source-creates_job :
      (r : Result LitestreamReplica)
      → client.get_replica (source_key restore) c ≡ r
      → creates_job (with_source client restore r (start c)).1.sent ≡ true
      → (restore.status.phase ≡ validating)
        ⊎ ((restore.status.phase ≡ scaling_down) × SeesRest client restore c)
  unfolding with_source with_destination fail_restore
  with_source-creates_job (ok db) e h = elim (Option-cases (active_destination db.spec.backup)) [
    | inl n ↦ cc n
    | inr (s3, d) ↦ ground (arith, dispatch-creates_job db s3 restore.status.phase)
  ]
  with_source-creates_job (err e) q h = ground arith

  -- A reconcile that creates a Job is in the phase Validating, or in the phase ScalingDown with a
  -- source that is found and a workload that is gone or has no running replicas, as the client
  -- answers.
  pub writes_of-creates_job :
      creates_job (writes_of client restore c) ≡ true
      → (restore.status.phase ≡ validating)
        ⊎ ((restore.status.phase ≡ scaling_down) × SeesRest client restore c)
  unfolding reconcile_restore
  writes_of-creates_job h =
      ground (arith, with_source-creates_job (client.get_replica (source_key restore) c) refl)
