-- ===== src/System/Quiet.antt =====
-- A reconcile of a restore whose source is paused does not take the pause off, unless it leaves the
-- phases that need it.
use sqlite_operator.Base.{
  String, ◌≡◌, refl, Bool, true, false, List, arith, or_default, Option-cases, inl, inr,
}
use sqlite_operator.Kube.Errors.{Result, ok, err}
use sqlite_operator.Kube.Objects.{Job}
use sqlite_operator.Kube.Client.{Client, Write, World, start, WorkloadTarget}
use sqlite_operator.Api.Replica.{LitestreamReplica, S3Destination, annotation_pause}
use sqlite_operator.Api.Restore.{
  RestorePhase, pausing, scaling_down, running, validating, LitestreamRestore,
}
use sqlite_operator.Workload.{target_for_restore}
use sqlite_operator.Restore.Annotations.{has_annotation}
use sqlite_operator.Restore.Status.{fail_restore, fail_restore_with_cleanup}
use sqlite_operator.Restore.Phases.{
  JobVerdict, succeeded, still_running, broken, judge_job, judge_validation, with_job,
  with_validation_job, launch_job, await_pods, scale_down, reconcile_pausing,
  reconcile_scaling_down, reconcile_running, reconcile_validating,
}
use sqlite_operator.Restore.Reconcile.{active_destination, dispatch, with_destination, with_source}
use sqlite_operator.Restore.Trace.{written_phase}
use sqlite_operator.System.Store.{all_leave}

-- The phases from the pause to the end of the validation.
unfoldable pub needs_pause : RestorePhase → Bool
needs_pause pausing = true
needs_pause scaling_down = true
needs_pause running = true
needs_pause validating = true
needs_pause _ = false

-- If the phase that was written last, or an earlier one, needs the pause, it was not taken off.
abbrev pub IsQuiet : RestorePhase → List Write → Type 0
IsQuiet p xs = needs_pause (or_default (written_phase xs) p) ≡ true → all_leave xs ≡ true

module _ {S : Type 0} (client : Client S) (restore : LitestreamRestore)
    (db : LitestreamReplica) where
  cleanup-IsQuiet :
      (p : RestorePhase) (m : String) (w : World S)
      → IsQuiet p (fail_restore_with_cleanup client restore db m w).1.sent
  unfolding fail_restore_with_cleanup needs_pause
  cleanup-IsQuiet p m w n = cc n

  scale_down-IsQuiet :
      (r : Result WorkloadTarget) (w : World S)
      → all_leave w.sent ≡ true
      → IsQuiet pausing (scale_down client restore r w).1.sent
  unfolding scale_down
  scale_down-IsQuiet (ok wt) w l n = ground arith
  scale_down-IsQuiet (err e) w l n = ground arith

  pausing-IsQuiet :
      (c : S)
      → has_annotation db annotation_pause ≡ true
      → IsQuiet pausing (reconcile_pausing client restore db (start c)).1.sent
  unfolding reconcile_pausing
  pausing-IsQuiet c a n =
      ground (arith, scale_down-IsQuiet (target_for_restore client db c) (start c) refl)

  launch_job-IsQuiet :
      (s3 : S3Destination) (w : World S)
      → all_leave w.sent ≡ true
      → all_leave (launch_job client restore db s3 w).1.sent ≡ true
  unfolding launch_job
  launch_job-IsQuiet s3 w l = ground arith

  await_pods-IsQuiet :
      (s3 : S3Destination) (r : Result WorkloadTarget) (w : World S)
      → all_leave w.sent ≡ true
      → all_leave (await_pods client restore db s3 r w).1.sent ≡ true
  unfolding await_pods
  await_pods-IsQuiet s3 (ok wt) w l = ground (arith, launch_job-IsQuiet s3 w l)
  await_pods-IsQuiet s3 (err e) w l = ground (arith, launch_job-IsQuiet s3 w l)

  judge_job-IsQuiet :
      (v : JobVerdict) (w : World S)
      → all_leave w.sent ≡ true
      → IsQuiet running (judge_job client restore db v w).1.sent
  unfolding judge_job
  judge_job-IsQuiet succeeded w l n = ground arith
  judge_job-IsQuiet still_running w l n = l
  judge_job-IsQuiet (broken m) w l n = cleanup-IsQuiet running _ w n

  with_job-IsQuiet :
      (r : Result Job) (w : World S)
      → all_leave w.sent ≡ true
      → IsQuiet running (with_job client restore db r w).1.sent
  unfolding with_job
  with_job-IsQuiet (ok job) w l n = judge_job-IsQuiet _ w l n
  with_job-IsQuiet (err e) w l n = ground (arith, cleanup-IsQuiet running "restore Job not found" w)

  judge_validation-IsQuiet :
      (v : JobVerdict) (w : World S)
      → all_leave w.sent ≡ true
      → IsQuiet validating (judge_validation client restore db v w).1.sent
  unfolding judge_validation
  judge_validation-IsQuiet succeeded w l n = ground arith
  judge_validation-IsQuiet still_running w l n = l
  judge_validation-IsQuiet (broken m) w l n = cleanup-IsQuiet validating _ w n

  with_validation_job-IsQuiet :
      (r : Result Job) (w : World S)
      → all_leave w.sent ≡ true
      → IsQuiet validating (with_validation_job client restore db r w).1.sent
  unfolding with_validation_job
  with_validation_job-IsQuiet (ok job) w l n = judge_validation-IsQuiet _ w l n
  with_validation_job-IsQuiet (err e) w l n = ground arith

  -- The handlers of the phases that need the pause.
  dispatch-IsQuiet :
      (p : RestorePhase) (s3 : S3Destination) (c : S)
      → has_annotation db annotation_pause ≡ true
      → needs_pause p ≡ true
      → IsQuiet p (dispatch client p restore db s3 (start c)).1.sent
  unfolding dispatch reconcile_scaling_down reconcile_running reconcile_validating needs_pause
  dispatch-IsQuiet pausing s3 c a p n = pausing-IsQuiet c a n
  dispatch-IsQuiet scaling_down s3 c a p n = await_pods-IsQuiet s3 _ (start c) refl
  dispatch-IsQuiet running s3 c a p n = with_job-IsQuiet _ (start c) refl n
  dispatch-IsQuiet validating s3 c a p n = with_validation_job-IsQuiet _ (start c) refl n
  dispatch-IsQuiet _ s3 c a p n = cc

module _ {S : Type 0} (client : Client S) (restore : LitestreamRestore) (c : S)
    (u : needs_pause restore.status.phase ≡ true) where
  with_destination-IsQuiet :
      (db : LitestreamReplica)
      → has_annotation db annotation_pause ≡ true
      → IsQuiet restore.status.phase
          (with_destination client restore db (active_destination db.spec.backup) (start c)).1.sent
  unfolding with_destination fail_restore
  with_destination-IsQuiet db a n = elim (Option-cases (active_destination db.spec.backup)) [
    | inl d ↦ rw d (ground arith)
    | inr (s3, d) ↦ rw d (dispatch-IsQuiet client restore db _ s3 c a u (rw d at n))
  ]

  -- What the look-up of the source answers, an error or a paused source.
  pub with_source-IsQuiet :
      (r : Result LitestreamReplica)
      → ((db : LitestreamReplica) → r ≡ ok db → has_annotation db annotation_pause ≡ true)
      → IsQuiet restore.status.phase (with_source client restore r (start c)).1.sent
  unfolding with_source fail_restore needs_pause
  with_source-IsQuiet (err e) a n = cc
  with_source-IsQuiet (ok db) a n = with_destination-IsQuiet db (a db refl) n
