-- ===== src/System/Replay/Restores.antt =====
-- A reconcile of a restore leaves the cluster that its writes lead to, and writes one status at most.
use sqlite_operator.Base.{String, refl, arith, ℤ, pos, Option-cases, inl, inr}
use sqlite_operator.Kube.Errors.{Result, ok, err}
use sqlite_operator.Kube.Objects.{Job}
use sqlite_operator.Kube.Client.{Client, World, start, WorkloadTarget}
use sqlite_operator.Api.Replica.{LitestreamReplica, S3Destination}
use sqlite_operator.Api.Restore.{
  RestorePhase, no_phase, pending, pausing, scaling_down, running, validating, scaling_up, complete,
  failed, unknown, LitestreamRestore,
}
use sqlite_operator.Workload.{target_for_restore}
use sqlite_operator.Restore.Status.{fail_restore, fail_restore_with_cleanup}
use sqlite_operator.Restore.Phases.{
  JobVerdict, succeeded, still_running, broken, judge_job, judge_validation, with_job,
  with_validation_job, launch_job, await_pods, scale_down, record_replicas, pause_with,
  reconcile_pending, reconcile_pausing, reconcile_scaling_down, reconcile_running,
  reconcile_validating, reconcile_scaling_up,
}
use sqlite_operator.Restore.Reconcile.{
  source_key, active_destination, dispatch, with_destination, with_source, reconcile_restore,
}
use sqlite_operator.System.Replay.{Tracks, IsFresh, Follows}

module _ {S : Type 0} (client : Client S) (c : S) where
  module _ (restore : LitestreamRestore) (db : LitestreamReplica) where
    pause_with-Follows :
        (n : ℤ) (w : World S)
        → Tracks client c w
        → IsFresh w.sent
        → Follows client c restore (pause_with client restore db n w).1
    unfolding pause_with
    pause_with-Follows n w t (b, k) = ground arith

    cleanup-Follows :
        (m : String) (w : World S)
        → Tracks client c w
        → IsFresh w.sent
        → Follows client c restore (fail_restore_with_cleanup client restore db m w).1
    unfolding fail_restore_with_cleanup
    cleanup-Follows m w t (b, k) = ground arith

    scaling_up-Follows :
        (w : World S)
        → Tracks client c w
        → IsFresh w.sent
        → Follows client c restore (reconcile_scaling_up client restore db w).1
    unfolding reconcile_scaling_up
    scaling_up-Follows w t (b, k) = ground arith

    record_replicas-Follows :
        (r : Result WorkloadTarget) (w : World S)
        → Tracks client c w
        → IsFresh w.sent
        → Follows client c restore (record_replicas client restore db r w).1
    unfolding record_replicas
    record_replicas-Follows (ok wt) w t b = pause_with-Follows _ w t b
    record_replicas-Follows (err e) w t (b, k) =
        ground (arith, pause_with-Follows (pos 0) w t (b, k))

    scale_down-Follows :
        (r : Result WorkloadTarget) (w : World S)
        → Tracks client c w
        → IsFresh w.sent
        → Follows client c restore (scale_down client restore r w).1
    unfolding scale_down
    scale_down-Follows (ok wt) w t (b, k) = ground arith
    scale_down-Follows (err e) w t (b, k) = ground arith

    pausing-Follows :
        (w : World S)
        → Tracks client c w
        → IsFresh w.sent
        → Follows client c restore (reconcile_pausing client restore db w).1
    unfolding reconcile_pausing
    pausing-Follows w t (b, k) =
        ground (arith, scale_down-Follows (target_for_restore client db w.cluster) w t (b, k))

    launch_job-Follows :
        (s3 : S3Destination) (w : World S)
        → Tracks client c w
        → IsFresh w.sent
        → Follows client c restore (launch_job client restore db s3 w).1
    unfolding launch_job
    launch_job-Follows s3 w t (b, k) = ground arith

    await_pods-Follows :
        (s3 : S3Destination) (r : Result WorkloadTarget) (w : World S)
        → Tracks client c w
        → IsFresh w.sent
        → Follows client c restore (await_pods client restore db s3 r w).1
    unfolding await_pods
    await_pods-Follows s3 (ok wt) w t (b, k) = ground (arith, launch_job-Follows s3 w t (b, k))
    await_pods-Follows s3 (err e) w t (b, k) = ground (arith, launch_job-Follows s3 w t (b, k))

    judge_job-Follows :
        (v : JobVerdict) (w : World S)
        → Tracks client c w
        → IsFresh w.sent
        → Follows client c restore (judge_job client restore db v w).1
    unfolding judge_job
    judge_job-Follows succeeded w t (b, k) = ground arith
    judge_job-Follows still_running w t b = (t, inl b.0, inl b.1)
    judge_job-Follows (broken m) w t b = cleanup-Follows _ w t b

    with_job-Follows :
        (r : Result Job) (w : World S)
        → Tracks client c w
        → IsFresh w.sent
        → Follows client c restore (with_job client restore db r w).1
    unfolding with_job
    with_job-Follows (ok job) w t b = judge_job-Follows _ w t b
    with_job-Follows (err e) w t (b, k) =
        ground (arith, cleanup-Follows "restore Job not found" w t (b, k))

    judge_validation-Follows :
        (v : JobVerdict) (w : World S)
        → Tracks client c w
        → IsFresh w.sent
        → Follows client c restore (judge_validation client restore db v w).1
    unfolding judge_validation
    judge_validation-Follows succeeded w t (b, k) = ground arith
    judge_validation-Follows still_running w t b = (t, inl b.0, inl b.1)
    judge_validation-Follows (broken m) w t b = cleanup-Follows _ w t b

    with_validation_job-Follows :
        (r : Result Job) (w : World S)
        → Tracks client c w
        → IsFresh w.sent
        → Follows client c restore (with_validation_job client restore db r w).1
    unfolding with_validation_job
    with_validation_job-Follows (ok job) w t b = judge_validation-Follows _ w t b
    with_validation_job-Follows (err e) w t (b, k) = ground arith

    dispatch-Follows :
        (p : RestorePhase) (s3 : S3Destination) (w : World S)
        → Tracks client c w
        → IsFresh w.sent
        → Follows client c restore (dispatch client p restore db s3 w).1
    unfolding dispatch reconcile_pending reconcile_scaling_down reconcile_running
        reconcile_validating
    dispatch-Follows no_phase s3 w t b = record_replicas-Follows _ w t b
    dispatch-Follows pending s3 w t b = record_replicas-Follows _ w t b
    dispatch-Follows pausing s3 w t b = pausing-Follows w t b
    dispatch-Follows scaling_down s3 w t b = await_pods-Follows s3 _ w t b
    dispatch-Follows running s3 w t b = with_job-Follows _ w t b
    dispatch-Follows validating s3 w t b = with_validation_job-Follows _ w t b
    dispatch-Follows scaling_up s3 w t b = scaling_up-Follows w t b
    dispatch-Follows complete s3 w t b = (t, inl b.0, inl b.1)
    dispatch-Follows failed s3 w t b = (t, inl b.0, inl b.1)
    dispatch-Follows (unknown x) s3 w t b = (t, inl b.0, inl b.1)

  pub with_source-Follows :
      (restore : LitestreamRestore) (r : Result LitestreamReplica) (w : World S)
      → Tracks client c w
      → IsFresh w.sent
      → Follows client c restore (with_source client restore r w).1
  unfolding with_source with_destination fail_restore
  with_source-Follows restore (err e) w t (b, k) = ground arith
  with_source-Follows restore (ok db) w t b =
      elim (Option-cases (active_destination db.spec.backup)) [
        | inl n ↦ rw n (ground arith)
        | inr (s3, d) ↦ rw d (dispatch-Follows restore db _ s3 w t b)
      ]

  -- The cluster that a reconcile leaves behind.
  pub reconcile_restore-Follows :
      (restore : LitestreamRestore)
      → Follows client c restore (reconcile_restore client restore (start c)).1
  unfolding reconcile_restore
  reconcile_restore-Follows restore = ground (
    arith,
    with_source-Follows restore (client.get_replica (source_key restore) c) (start c) refl
        (refl, refl),
  )
