-- ===== src/Restore/Phases/ScalingUp.antt =====
-- reconcileScalingUp.
use sqlite_operator.Base.{◌<>◌, true, none, some, exceeds, if◌then◌else◌}
use sqlite_operator.Base.Strings.{decimal}
use sqlite_operator.Kube.Errors.{Result, ok, err, wrapped}
use sqlite_operator.Kube.Client.{
  WorkloadTarget, emit_event, restore_owner, normal, Client, M, pure, ◌>>=◌, ◌>>◌, reads, send,
  Outcome, requeue, failing,
}
use sqlite_operator.Api.Replica.{LitestreamReplica}
use sqlite_operator.Api.Restore.{complete, LitestreamRestore}
use sqlite_operator.Workload.{get_target_workload_for_restore, scale_workload}
use sqlite_operator.Restore.Annotations.{resume_replication, set_skip_archive_check}
use sqlite_operator.Restore.Status.{scale_back_target, set_status}
use sqlite_operator.Restore.Phases.Common.{
  restore_requeue_interval, ended, again, is_paused_config, config_key,
}

module _ {S : Type 0} (client : Client S) (restore : LitestreamRestore) where
  -- The end of reconcileScalingUp.
  finish : M S Outcome
  unfolding set_status
  finish = do
    send client (
        emit_event (restore_owner restore) normal "RestoreComplete"
          "Litestream restore completed successfully")
    now ← reads client.now
    e ←
        set_status client restore complete restore.status.job_name "restore completed successfully"
          restore.status.original_replicas restore.status.start_time (some now)
    pure (ended e)

  -- An error of the look-up, of whatever kind, is passed over.
  scale_up : Result WorkloadTarget → M S Outcome
  unfolding finish scale_workload
  scale_up (err e) = finish
  scale_up (ok wt) = do
    scaled ← scale_workload client wt (scale_back_target restore)
    elim scaled [
      | some e ↦
          pure (
            failing
              (wrapped ("scaling workload back to " <> decimal (scale_back_target restore)) e))
      | none ↦ finish
    ]

  -- Steps 3 and 4 of reconcileScalingUp.
  scale_up_if_unpaused : LitestreamReplica → M S Outcome
  unfolding scale_up
  scale_up_if_unpaused source_db = do
    cm ← reads (client.get_config_map (config_key source_db))
    elim cm [
      | err e ↦ pure (again (some (wrapped "getting litestream ConfigMap" e)))
      | ok cm ↦
          if is_paused_config cm
          then pure (requeue restore_requeue_interval)
          else if exceeds (scale_back_target restore) 0
          then get_target_workload_for_restore client source_db >>= scale_up
          else finish
    ]

  unfoldable pub reconcile_scaling_up : LitestreamReplica → M S Outcome
  unfolding scale_up_if_unpaused set_skip_archive_check resume_replication
  reconcile_scaling_up source_db = do
    skipped ← set_skip_archive_check client source_db true
    elim skipped [
      | some e ↦ pure (failing (wrapped "setting skip-archive-check on LitestreamReplica" e))
      | none ↦ do
        resumed ← resume_replication client source_db
        elim resumed [
          | some e ↦ pure (failing (wrapped "removing pause annotation from LitestreamReplica" e))
          | none ↦ scale_up_if_unpaused source_db
        ]
    ]
