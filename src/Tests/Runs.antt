-- ===== src/Tests/Runs.antt =====
-- The six reconciles of a restore that succeeds, computed on the example client, and two that do not
-- succeed.
use sqlite_operator.Base.{ℕ, String, ◌≡◌, refl, true, Option, none, some, [], ◌∷◌, pos}
use sqlite_operator.Api.Restore.{
  RestorePhase, pausing, scaling_down, running, validating, scaling_up, complete, LitestreamRestore,
  LitestreamRestoreStatus,
}
use sqlite_operator.Workload.{target_for_restore}
use sqlite_operator.Restore.Annotations.{has_annotation}
use sqlite_operator.Restore.Phases.{
  pause_with, record_replicas, reconcile_pending, scale_down, reconcile_pausing, launch_job,
  await_pods, reconcile_scaling_down, job_verdict, judge_job, with_job, reconcile_running,
  judge_validation, with_validation_job, reconcile_validating, reconcile_scaling_up,
}
use sqlite_operator.Restore.Reconcile.{reconcile_restore, dispatch, with_source, with_destination}
use sqlite_operator.Restore.Trace.{written_status, creates_job, scale_targets, writes_of}
use sqlite_operator.Tests.Objects.{
  undo, fake, serving, pausing_cluster, drained, restored, unpaused,
}

abbrev status_at : RestorePhase → String → Option ℕ → String → LitestreamRestoreStatus
status_at phase job_name completion_time message = record {
  phase = phase;
  job_name = job_name;
  original_replicas = some (pos 1);
  start_time = some 42;
  completion_time = completion_time;
  message = message;
}

abbrev pub paused_status : LitestreamRestoreStatus
paused_status = status_at pausing "" none "pausing replication"

abbrev pub drained_status : LitestreamRestoreStatus
drained_status = status_at scaling_down "" none "waiting for pods to terminate"

abbrev pub running_status : LitestreamRestoreStatus
running_status = status_at running "undo-restore" none "restore Job running"

abbrev pub validating_status : LitestreamRestoreStatus
validating_status = status_at validating "undo-restore" none "running integrity check"

abbrev pub scaling_up_status : LitestreamRestoreStatus
scaling_up_status = status_at scaling_up "undo-restore" none "scaling Deployment back up"

abbrev pub complete_status : LitestreamRestoreStatus
complete_status = status_at complete "undo-restore" (some 42) "restore completed successfully"

abbrev pub undo_at : LitestreamRestoreStatus → LitestreamRestore
undo_at s = record undo { status = s }

pub begins : written_status (writes_of fake undo serving) ≡ some paused_status
unfolding reconcile_restore with_source with_destination dispatch reconcile_pending record_replicas
    target_for_restore pause_with has_annotation
begins = refl

pub drains :
    written_status (writes_of fake (undo_at paused_status) pausing_cluster) ≡ some drained_status
unfolding reconcile_restore with_source with_destination dispatch reconcile_pausing has_annotation
    scale_down target_for_restore
drains = refl

pub launches :
    written_status (writes_of fake (undo_at drained_status) drained) ≡ some running_status
unfolding reconcile_restore with_source with_destination dispatch reconcile_scaling_down await_pods
    target_for_restore launch_job
launches = refl

pub validates :
    written_status (writes_of fake (undo_at running_status) restored) ≡ some validating_status
unfolding reconcile_restore with_source with_destination dispatch reconcile_running with_job
    judge_job job_verdict
validates = refl

pub returns :
    written_status (writes_of fake (undo_at validating_status) restored) ≡ some scaling_up_status
unfolding reconcile_restore with_source with_destination dispatch reconcile_validating
    with_validation_job judge_validation job_verdict
returns = refl

pub finishes :
    written_status (writes_of fake (undo_at scaling_up_status) unpaused) ≡ some complete_status
unfolding reconcile_restore with_source with_destination dispatch reconcile_scaling_up
    has_annotation target_for_restore
finishes = refl

pub creates : creates_job (writes_of fake (undo_at drained_status) drained) ≡ true
unfolding reconcile_restore with_source with_destination dispatch reconcile_scaling_down await_pods
    target_for_restore launch_job
creates = refl

scales_to_zero :
    scale_targets (writes_of fake (undo_at paused_status) pausing_cluster) ≡ some (pos 0) ∷ []
unfolding reconcile_restore with_source with_destination dispatch reconcile_pausing has_annotation
    scale_down target_for_restore
scales_to_zero = refl

scales_back :
    scale_targets (writes_of fake (undo_at scaling_up_status) unpaused) ≡ some (pos 1) ∷ []
unfolding reconcile_restore with_source with_destination dispatch reconcile_scaling_up
    has_annotation target_for_restore
scales_back = refl
