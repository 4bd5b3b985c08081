-- ===== src/Tests/Courses.antt =====
-- A restore that succeeds, as a course of reconciles with a wait.
use sqlite_operator.Base.{ℕ, suc, ◌≡◌, ◌≢◌, ◌∙◌, ap, refl, true, some, none, arith}
use sqlite_operator.Kube.Errors.{Result, ok, err}
use sqlite_operator.Api.Replica.{LitestreamReplica, annotation_pause}
use sqlite_operator.Api.Restore.{complete, LitestreamRestore, LitestreamRestoreStatus}
use sqlite_operator.Workload.{target_for_restore}
use sqlite_operator.Restore.Annotations.{has_annotation, set_skip_archive_check, resume_replication}
use sqlite_operator.Restore.Phases.{job_verdict, reconcile_pausing}
use sqlite_operator.Restore.Reconcile.{reconcile_restore, dispatch, with_source, with_destination}
use sqlite_operator.Restore.Trace.{written_status, writes_of}
use sqlite_operator.Restore.Course.{Helps, Course, stays, waits, moves, Course-complete}
use sqlite_operator.Tests.Objects.{
  undo, orders, Cluster, paused_orders, bucket, fake, serving, pausing_cluster, drained, restored,
  unpaused,
}
use sqlite_operator.Tests.Restores.{fake-IsCalm}
use sqlite_operator.Tests.Runs.{
  paused_status, drained_status, running_status, validating_status, scaling_up_status,
  complete_status, undo_at, begins, drains, launches, validates, returns, finishes,
}

-- The replica controller has not answered yet.
waits_for_pause : written_status (writes_of fake (undo_at paused_status) serving) ≡ none
unfolding reconcile_restore with_source with_destination dispatch reconcile_pausing has_annotation
waits_for_pause = refl

orders_unpaused : has_annotation orders annotation_pause ≢ true
unfolding has_annotation
orders_unpaused e = cc e

source_of : Result LitestreamReplica → LitestreamReplica
source_of (ok db) = db
source_of (err e) = orders

not_at_pausing : ¬ Helps fake (undo_at paused_status) serving
unfolding source_of
not_at_pausing h =
    orders_unpaused (ap (λ x. has_annotation (source_of x) annotation_pause) h.found ∙ h.awaited.0)

-- A helped reconcile, with the status that it writes.
moves_to :
    {restore last : LitestreamRestore} {n : ℕ} (c : Cluster) (s : LitestreamRestoreStatus)
    → Helps fake restore c
    → written_status (writes_of fake restore c) ≡ some s
    → Course fake (record restore { status = s }) n last
    → Course fake restore (suc n) last
moves_to {restore} c s h w k = moves c h (rw w k)

at_start : Helps fake undo serving
unfolding target_for_restore
at_start = record { db = orders; s3 = bucket; found = refl; active = refl; awaited = tt }

at_pausing : Helps fake (undo_at paused_status) pausing_cluster
unfolding target_for_restore has_annotation
at_pausing = record {
  db = paused_orders;
  s3 = bucket;
  found = refl;
  active = refl;
  awaited = (refl, refl, tt);
}

at_scaling_down : Helps fake (undo_at drained_status) drained
unfolding target_for_restore
at_scaling_down = record {
  db = paused_orders;
  s3 = bucket;
  found = refl;
  active = refl;
  awaited = refl;
}

at_running : Helps fake (undo_at running_status) restored
unfolding job_verdict
at_running = record { db = paused_orders; s3 = bucket; found = refl; active = refl; awaited = refl }

at_validating : Helps fake (undo_at validating_status) restored
unfolding job_verdict
at_validating = record {
  db = paused_orders;
  s3 = bucket;
  found = refl;
  active = refl;
  awaited = refl;
}

at_scaling_up : Helps fake (undo_at scaling_up_status) unpaused
unfolding set_skip_archive_check resume_replication has_annotation
at_scaling_up = record {
  db = paused_orders;
  s3 = bucket;
  found = refl;
  active = refl;
  awaited = (tt, tt, refl);
}

abbrev course : Course fake undo 6 (undo_at complete_status)
course = moves_to serving paused_status at_start begins (
    waits serving not_at_pausing waits_for_pause (
      moves_to pausing_cluster drained_status at_pausing drains (
        moves_to drained running_status at_scaling_down launches (
          moves_to restored validating_status at_running validates (
            moves_to restored scaling_up_status at_validating returns
              (moves_to unpaused complete_status at_scaling_up finishes stays))))))

Course-complete_example : (undo_at complete_status).status.phase ≡ complete
Course-complete_example = Course-complete fake fake-IsCalm course (λ e. cc e) (omega arith)
