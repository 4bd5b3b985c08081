-- ===== src/Tests/Counts.antt =====
-- The counts that two restores write: one that began while the workload ran, and one that began while
-- it was scaled down.
use sqlite_operator.Base.{◌≡◌, inl, refl, Bool, true, false, some, List, [], ◌∷◌, pos}
use sqlite_operator.Kube.Errors.{ok}
use sqlite_operator.Kube.Client.{deployment}
use sqlite_operator.Api.Restore.{LitestreamRestoreStatus}
use sqlite_operator.Workload.{target_for_restore}
use sqlite_operator.Restore.Annotations.{has_annotation}
use sqlite_operator.Restore.Phases.{
  pause_with, record_replicas, reconcile_pending, reconcile_scaling_up,
}
use sqlite_operator.Restore.Reconcile.{reconcile_restore, dispatch, with_source, with_destination}
use sqlite_operator.Restore.Trace.{written_status, writes_of}
use sqlite_operator.Restore.Counts.{AreCounts, counts_over, counts_over-AreCounts, counts_over_zero}
use sqlite_operator.Tests.Objects.{
  undo, orders, fake, Cluster, workload, serving, pausing_cluster, drained, restored, unpaused,
}
use sqlite_operator.Tests.Runs.{paused_status, scaling_up_status, undo_at}

-- A run to the end, in which the first scaling down is done twice, since its status is lost.
abbrev turns : List (Cluster × Bool)
turns =
    (pausing_cluster, false)
    ∷ (pausing_cluster, true)
    ∷ (drained, true)
    ∷ (restored, true)
    ∷ (restored, true)
    ∷ (unpaused, true)
    ∷ []

counts_over-AreCounts_example : AreCounts (pos 1) (counts_over fake (undo_at paused_status) turns)
counts_over-AreCounts_example =
    counts_over-AreCounts fake (undo_at paused_status) (pos 1) turns refl

-- The last of its counts.
scaled_back :
    counts_over fake (undo_at scaling_up_status) ((unpaused, true) ∷ []) ≡ some (pos 1) ∷ []
unfolding reconcile_restore with_source with_destination dispatch reconcile_scaling_up
    has_annotation target_for_restore
scaled_back = refl

abbrev scaled_down : Cluster
scaled_down = record serving { deployment = ok (workload 0 0) }

abbrev second_status : LitestreamRestoreStatus
second_status = record paused_status { original_replicas = some (pos 0) }

begins_at_zero : written_status (writes_of fake undo scaled_down) ≡ some second_status
unfolding reconcile_restore with_source with_destination dispatch reconcile_pending record_replicas
    target_for_restore pause_with has_annotation
begins_at_zero = refl

finds_zero : target_for_restore fake orders scaled_down ≡ ok (deployment (workload 0 0))
unfolding target_for_restore
finds_zero = refl

counts_over_zero_example : AreCounts (pos 0) (counts_over fake (undo_at second_status) turns)
counts_over_zero_example =
    counts_over_zero fake undo scaled_down orders (deployment (workload 0 0)) second_status turns
      (inl refl) refl refl finds_zero refl begins_at_zero refl
