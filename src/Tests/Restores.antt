-- ===== src/Tests/Restores.antt =====
-- The theorems on the restore controller at examples.
use sqlite_operator.Base.{◌+◌, ◌≤◌, ◌<◌, ◌≡◌, ◌⊎◌, refl, false, some, [], ◌∷◌}
use sqlite_operator.Kube.Errors.{err}
use sqlite_operator.Api.Restore.{
  pausing, scaling_down, running, validating, scaling_up, complete, failed,
}
use sqlite_operator.Restore.Trace.{written_phase, scale_targets, patches_replica, writes_of}
use sqlite_operator.Restore.Machine.{StatusStep}
use sqlite_operator.Restore.Refinement.{writes_of-StatusStep}
use sqlite_operator.Restore.JobGuard.{SeesRest, writes_of-creates_job}
use sqlite_operator.Restore.Scaling.{Scales, writes_of-Scales}
use sqlite_operator.Restore.Life.{
  Life, created, reconciled, IsWellFormed, Life-IsWellFormed, Life-complete,
}
use sqlite_operator.Restore.Bound.{remaining, length, writes_of-remaining, Life-length}
use sqlite_operator.Restore.Progress.{IsCalm}
use sqlite_operator.Restore.SourceLoss.{source_error_strands}
use sqlite_operator.Tests.Objects.{
  fake, Cluster, meta, restore_spec, missing, serving, pausing_cluster, drained, restored, unpaused,
}
use sqlite_operator.Tests.Runs.{
  paused_status, drained_status, running_status, validating_status, scaling_up_status,
  complete_status, undo_at, begins, drains, launches, validates, returns, finishes, creates,
}

-- The life of a restore that succeeds.
undone :
    Life fake
      (meta "undo" [])
      (undo_at complete_status)
      (complete ∷ scaling_up ∷ validating ∷ running ∷ scaling_down ∷ pausing ∷ [])
undone =
    let a = reconciled (created restore_spec) serving paused_status begins in
    let b = reconciled a pausing_cluster drained_status drains in
    let c = reconciled b drained running_status launches in
    let d = reconciled c restored validating_status validates in
    let e = reconciled d restored scaling_up_status returns in
    reconciled e unpaused complete_status finishes

writes_of-StatusStep_example : StatusStep "undo" paused_status drained_status
writes_of-StatusStep_example =
    writes_of-StatusStep fake (undo_at paused_status) pausing_cluster drained_status drains

writes_of-Scales_example :
    Scales fake
      (undo_at paused_status)
      pausing_cluster
      (scale_targets (writes_of fake (undo_at paused_status) pausing_cluster))
      (written_phase (writes_of fake (undo_at paused_status) pausing_cluster))
writes_of-Scales_example = writes_of-Scales fake (undo_at paused_status) pausing_cluster

writes_of-creates_job_example :
    (scaling_down ≡ validating)
    ⊎ ((scaling_down ≡ scaling_down) × SeesRest fake (undo_at drained_status) drained)
writes_of-creates_job_example = writes_of-creates_job fake (undo_at drained_status) drained creates

Life-IsWellFormed_example :
    IsWellFormed
      (meta "undo" [])
      (undo_at complete_status)
      (complete ∷ scaling_up ∷ validating ∷ running ∷ scaling_down ∷ pausing ∷ [])
Life-IsWellFormed_example = Life-IsWellFormed fake (meta "undo" []) undone

Life-complete_example :
    complete ∷ scaling_up ∷ validating ∷ running ∷ scaling_down ∷ pausing ∷ []
    ≡ complete ∷ scaling_up ∷ validating ∷ running ∷ scaling_down ∷ pausing ∷ []
Life-complete_example = Life-complete fake (meta "undo" []) undone refl

writes_of-remaining_example : remaining scaling_down < remaining pausing
writes_of-remaining_example =
    writes_of-remaining fake (undo_at paused_status) pausing_cluster drained_status drains

Life-length_example :
    length (complete ∷ scaling_up ∷ validating ∷ running ∷ scaling_down ∷ pausing ∷ [])
      + remaining complete
    ≤ 6
Life-length_example = Life-length fake (meta "undo" []) undone

pub fake-IsCalm : IsCalm fake
fake-IsCalm = record { sends = λ x. λ c. refl; owns = λ o. λ j. tt }

abbrev lost : Cluster
lost = record serving { source = err missing }

source_error_strands_example :
    (written_phase (writes_of fake (undo_at drained_status) lost) ≡ some failed)
    × (scale_targets (writes_of fake (undo_at drained_status) lost) ≡ [])
    × (patches_replica (writes_of fake (undo_at drained_status) lost) ≡ false)
source_error_strands_example =
    source_error_strands fake (undo_at drained_status) lost missing refl refl
