-- ===== src/Restore/Phases/Pausing.antt =====
-- reconcilePending, reconcilePausing and reconcileScalingDown.
use sqlite_operator.Base.{String, ◌<>◌, not, none, some, ℤ, pos, exceeds, if◌then◌else◌}
use sqlite_operator.Base.Strings.{quote}
use sqlite_operator.Kube.Objects.{Job}
use sqlite_operator.Kube.Errors.{Result, ok, err, wrapped, error_text, is_not_found}
use sqlite_operator.Kube.Client.{
  WorkloadTarget, create_job, restore_owner, Client, M, pure, ◌>>=◌, ◌>>◌, reads, send, Outcome,
  requeue, failing,
}
use sqlite_operator.Api.Replica.{S3Destination, LitestreamReplica, annotation_pause}
use sqlite_operator.Api.Restore.{pausing, scaling_down, running, LitestreamRestore}
use sqlite_operator.Workload.{
  name, type_name, desired_replicas, running_replicas, get_target_workload_for_restore,
  scale_workload,
}
use sqlite_operator.Restore.Annotations.{has_annotation, pause_replication}
use sqlite_operator.Restore.Status.{set_status, fail_restore}
use sqlite_operator.Restore.Jobs.{build_restore_job, reconcile_restore_config}
use sqlite_operator.Restore.Phases.Common.{
  restore_requeue_interval, ended, again, is_paused_config, config_key, creation_failure, event,
}

module _ {S : Type 0} (client : Client S) (restore : LitestreamRestore) where
  -- The rest of reconcilePending, from the pause on.
  unfoldable pub pause_with : LitestreamReplica → ℤ → M S Outcome
  unfolding event pause_replication set_status
  pause_with source_db original_replicas = do
    paused ← pause_replication client source_db
    elim paused [
      | some e ↦ pure (failing (wrapped "setting pause annotation on LitestreamReplica" e))
      | none ↦ do
        event client restore "PausingReplication"
            ("Pausing Litestream replication on LitestreamReplica " <> source_db.metadata.name)
        now ← reads client.now
        e ←
            set_status client restore pausing restore.status.job_name "pausing replication"
              (some original_replicas) (some now) none
        pure (again e)
    ]

  -- What follows the look-up of the workload whose replicas are recorded.
  unfoldable pub record_replicas : LitestreamReplica → Result WorkloadTarget → M S Outcome
  unfolding fail_restore
  record_replicas source_db (ok wt) = pause_with source_db (desired_replicas wt)
  record_replicas source_db (err e) = if is_not_found e then pause_with source_db (pos 0) else do
    e ← fail_restore client restore (
        "getting target workload for LitestreamReplica "
        <> quote source_db.metadata.name
        <> ": "
        <> error_text e)
    pure (ended e)

  unfoldable pub reconcile_pending : LitestreamReplica → M S Outcome
  reconcile_pending source_db =
      get_target_workload_for_restore client source_db >>= record_replicas source_db

  to_scaling_down : M S Outcome
  unfolding set_status
  to_scaling_down = do
    e ←
        set_status client restore scaling_down restore.status.job_name
          "waiting for pods to terminate" restore.status.original_replicas restore.status.start_time
          none
    pure (again e)

  -- The rest of reconcilePausing, from the scaling on.
  unfoldable pub scale_down : Result WorkloadTarget → M S Outcome
  unfolding event fail_restore scale_workload to_scaling_down
  scale_down (err e) = if is_not_found e then to_scaling_down else do
    e ← fail_restore client restore ("cannot find target workload: " <> error_text e)
    pure (ended e)
  scale_down (ok wt) = do
    scaled ← scale_workload client wt (pos 0)
    elim scaled [
      | some e ↦ pure (failing (wrapped "scaling workload to 0" e))
      | none ↦ do
        event client restore "ScalingDown"
            ("Scaled " <> type_name wt <> " " <> name wt <> " to 0 replicas")
        to_scaling_down
    ]

  unfoldable pub reconcile_pausing : LitestreamReplica → M S Outcome
  unfolding pause_replication
  reconcile_pausing source_db =
      if not (has_annotation source_db annotation_pause)
      then (do
        paused ← pause_replication client source_db
        elim paused [
          | some e ↦ pure (failing (wrapped "re-setting pause annotation" e))
          | none ↦ pure (requeue restore_requeue_interval)
        ])
      else do
        cm ← reads (client.get_config_map (config_key source_db))
        elim cm [
          | err e ↦ pure (again (some (wrapped "getting litestream ConfigMap" e)))
          | ok cm ↦
              if not (is_paused_config cm)
              then pure (requeue restore_requeue_interval)
              else get_target_workload_for_restore client source_db >>= scale_down
        ]

  abbrev restore_job_name : String
  restore_job_name = restore.metadata.name <> "-restore"

  -- From the creation of the Job on.
  run_job : Result Job → M S Outcome
  unfolding event set_status
  run_job (err e) = pure (failing e)
  run_job (ok job) = do
    created ← send client (create_job job)
    elim (creation_failure created) [
      | some e ↦ pure (failing (wrapped "creating restore Job" e))
      | none ↦ do
        event client restore "RestoreStarted" ("Created restore Job " <> restore_job_name)
        now ← reads client.now
        e ←
            set_status client restore running restore_job_name "restore Job running"
              restore.status.original_replicas (some now) none
        pure (again e)
    ]

  -- The rest of reconcileScalingDown, once no pod is left.
  unfoldable pub launch_job : LitestreamReplica → S3Destination → M S Outcome
  unfolding run_job reconcile_restore_config
  launch_job source_db s3 = do
    configured ← reconcile_restore_config client restore source_db
    elim configured [
      | some e ↦ pure (failing (wrapped "creating restore litestream config" e))
      | none ↦ run_job (
          client.set_controller_reference (restore_owner restore)
            (build_restore_job restore source_db s3 restore_job_name))
    ]

  -- What follows the look-up of the workload that is scaled down.
  unfoldable pub await_pods :
      LitestreamReplica → S3Destination → Result WorkloadTarget → M S Outcome
  unfolding fail_restore
  await_pods source_db s3 (ok wt) =
      if exceeds (running_replicas wt) 0
      then pure (requeue restore_requeue_interval)
      else launch_job source_db s3
  await_pods source_db s3 (err e) = if is_not_found e then launch_job source_db s3 else do
    e ← fail_restore client restore ("cannot find target workload: " <> error_text e)
    pure (ended e)

  unfoldable pub reconcile_scaling_down : LitestreamReplica → S3Destination → M S Outcome
  reconcile_scaling_down source_db s3 =
      get_target_workload_for_restore client source_db >>= await_pods source_db s3
