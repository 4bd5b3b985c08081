-- ===== src/Restore/Returns.antt =====
-- A reconcile of a restore that is not at its end comes back.
use sqlite_operator.Base.{
  String, ◌≡◌, ◌≢◌, ◌⊎◌, inl, inr, refl, Bool, true, false, none, some, arith, Option-cases,
}
use sqlite_operator.Kube.Errors.{Result, ok, err}
use sqlite_operator.Kube.Objects.{Job}
use sqlite_operator.Kube.Client.{Client, World, start, WorkloadTarget, Outcome}
use sqlite_operator.Api.Replica.{LitestreamReplica, S3Destination}
use sqlite_operator.Api.Restore.{
  RestorePhase, no_phase, pending, pausing, scaling_down, running, validating, scaling_up, complete,
  failed, unknown, LitestreamRestore,
}
use sqlite_operator.Workload.{target_for_restore}
use sqlite_operator.Restore.Status.{fail_restore, fail_restore_with_cleanup}
use sqlite_operator.Restore.Phases.{
  JobVerdict, succeeded, still_running, broken, judge_job, judge_validation, with_job,
  with_validation_job, launch_job, await_pods, scale_down, record_replicas, pause_with,
  reconcile_pending, reconcile_pausing, reconcile_scaling_down, reconcile_running,
  reconcile_validating, reconcile_scaling_up,
}
use sqlite_operator.Restore.Reconcile.{
  is_terminal, active_destination, source_key, dispatch, with_destination, with_source,
  reconcile_restore,
}
use sqlite_operator.Restore.Trace.{written_phase}

abbrev pub is_known : RestorePhase → Bool
is_known (unknown text) = false
is_known _ = true

-- An outcome that comes back: with an error, on which the manager tries again, or in five seconds.
abbrev pub ComesBack : Outcome → Type 0
ComesBack o = (o.error ≢ none) ⊎ (o.requeue_after ≡ 5)

-- A step that comes back, or has written one of the last phases.
abbrev pub Settles : {S : Type 0} → Outcome × World S → Type 0
Settles (o, w) =
    ComesBack o ⊎ (written_phase w.sent ≡ some failed) ⊎ (written_phase w.sent ≡ some complete)

module _ {S : Type 0} (client : Client S) (restore : LitestreamRestore) where
  record_replicas-Settles :
      (db : LitestreamReplica) (r : Result WorkloadTarget) (w : World S)
      → Settles (record_replicas client restore db r w)
  unfolding record_replicas pause_with
  record_replicas-Settles db (ok wt) w = ground arith
  record_replicas-Settles db (err e) w = ground arith

  scale_down-Settles :
      (r : Result WorkloadTarget) (w : World S) → Settles (scale_down client restore r w)
  unfolding scale_down
  scale_down-Settles (ok wt) w = ground arith
  scale_down-Settles (err e) w = ground arith

  pausing-Settles :
      (db : LitestreamReplica) (w : World S) → Settles (reconcile_pausing client restore db w)
  unfolding reconcile_pausing
  pausing-Settles db w =
      ground (arith, scale_down-Settles (target_for_restore client db w.cluster) w)

  launch_job-Settles :
      (db : LitestreamReplica) (s3 : S3Destination) (w : World S)
      → Settles (launch_job client restore db s3 w)
  unfolding launch_job
  launch_job-Settles db s3 w = ground arith

  await_pods-Settles :
      (db : LitestreamReplica) (s3 : S3Destination) (r : Result WorkloadTarget) (w : World S)
      → Settles (await_pods client restore db s3 r w)
  unfolding await_pods
  await_pods-Settles db s3 (ok wt) w = ground (arith, launch_job-Settles db s3 w)
  await_pods-Settles db s3 (err e) w = ground (arith, launch_job-Settles db s3 w)

  cleanup-failed :
      (db : LitestreamReplica) (m : String) (w : World S)
      → written_phase (fail_restore_with_cleanup client restore db m w).1.sent ≡ some failed
  unfolding fail_restore_with_cleanup
  cleanup-failed db m w = refl

  judge_job-Settles :
      (db : LitestreamReplica) (v : JobVerdict) (w : World S)
      → Settles (judge_job client restore db v w)
  unfolding judge_job
  judge_job-Settles db succeeded w = ground arith
  judge_job-Settles db still_running w = ground arith
  judge_job-Settles db (broken m) w = inr (inl (cleanup-failed db _ w))

  judge_validation-Settles :
      (db : LitestreamReplica) (v : JobVerdict) (w : World S)
      → Settles (judge_validation client restore db v w)
  unfolding judge_validation
  judge_validation-Settles db succeeded w = ground arith
  judge_validation-Settles db still_running w = ground arith
  judge_validation-Settles db (broken m) w = inr (inl (cleanup-failed db _ w))

  with_job-Settles :
      (db : LitestreamReplica) (r : Result Job) (w : World S)
      → Settles (with_job client restore db r w)
  unfolding with_job
  with_job-Settles db (ok job) w = judge_job-Settles db _ w
  with_job-Settles db (err e) w = ground (arith, cleanup-failed db "restore Job not found" w)

  with_validation_job-Settles :
      (db : LitestreamReplica) (r : Result Job) (w : World S)
      → Settles (with_validation_job client restore db r w)
  unfolding with_validation_job
  with_validation_job-Settles db (ok job) w = judge_validation-Settles db _ w
  with_validation_job-Settles db (err e) w = ground arith

  scaling_up-Settles :
      (db : LitestreamReplica) (w : World S) → Settles (reconcile_scaling_up client restore db w)
  unfolding reconcile_scaling_up
  scaling_up-Settles db w = ground arith

  dispatch-Settles :
      (db : LitestreamReplica) (s3 : S3Destination) (p : RestorePhase) (w : World S)
      → is_terminal p ≡ false
      → is_known p ≡ true
      → Settles (dispatch client p restore db s3 w)
  unfolding dispatch reconcile_pending reconcile_scaling_down reconcile_running reconcile_validating
  dispatch-Settles db s3 no_phase w t k = record_replicas-Settles db _ w
  dispatch-Settles db s3 pending w t k = record_replicas-Settles db _ w
  dispatch-Settles db s3 pausing w t k = pausing-Settles db w
  dispatch-Settles db s3 scaling_down w t k = await_pods-Settles db s3 _ w
  dispatch-Settles db s3 running w t k = with_job-Settles db _ w
  dispatch-Settles db s3 validating w t k = with_validation_job-Settles db _ w
  dispatch-Settles db s3 scaling_up w t k = scaling_up-Settles db w
  dispatch-Settles db s3 complete w t k = cc t
  dispatch-Settles db s3 failed w t k = cc t
  dispatch-Settles db s3 (unknown x) w t k = cc k

  with_source-Settles :
      (r : Result LitestreamReplica) (w : World S)
      → is_terminal restore.status.phase ≡ false
      → is_known restore.status.phase ≡ true
      → Settles (with_source client restore r w)
  unfolding with_source with_destination fail_restore
  with_source-Settles (err e) w t k = ground arith
  with_source-Settles (ok db) w t k = elim (Option-cases (active_destination db.spec.backup)) [
    | inl n ↦ rw n (inr (inl refl))
    | inr (s3, d) ↦ rw d (dispatch-Settles db s3 _ w t k)
  ]

  -- No restore is left waiting: in each of the phases that the code knows and that is not terminal, a
  -- reconcile asks to come back in five seconds, or returns an error, or has sent the status Failed
  -- or Complete.
  pub reconcile_restore-Settles :
      (c : S)
      → is_terminal restore.status.phase ≡ false
      → is_known restore.status.phase ≡ true
      → Settles (reconcile_restore client restore (start c))
  unfolding reconcile_restore
  reconcile_restore-Settles c t k =
      rw t (with_source-Settles (client.get_replica (source_key restore) c) (start c) t k)
