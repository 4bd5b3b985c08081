-- ===== src/Restore/Phases/Judging.antt =====
-- reconcileRunning and reconcileValidating.
use sqlite_operator.Base.{String, ◌<>◌, none, some, ◌==◌, if◌then◌else◌}
use sqlite_operator.Kube.Objects.{Job}
use sqlite_operator.Kube.Errors.{Result, ok, err, wrapped, is_not_found}
use sqlite_operator.Kube.Client.{
  create_job, restore_owner, Client, M, pure, ◌>>=◌, ◌>>◌, reads, send, Outcome, requeue, failing,
}
use sqlite_operator.Api.Replica.{LitestreamReplica}
use sqlite_operator.Api.Restore.{validating, scaling_up, LitestreamRestore}
use sqlite_operator.Restore.Status.{set_status, fail_restore_with_cleanup}
use sqlite_operator.Restore.Jobs.{build_validation_job, restore_job_pod_logs}
use sqlite_operator.Restore.Phases.Common.{
  restore_requeue_interval, ended, again, job_key, JobVerdict, succeeded, still_running, broken,
  job_verdict, creation_failure, event,
}

module _ {S : Type 0} (client : Client S) (restore : LitestreamRestore) where
  -- The condition's message, or a default, with the log behind it where there is one.
  unfoldable pub failure_message : String → String → String
  failure_message message logs =
      let msg = if message == "" then "restore Job failed" else message in
      if logs == "" then msg else msg <> "; litestream output: " <> logs

  unfoldable pub judge_job : LitestreamReplica → JobVerdict → M S Outcome
  unfolding event set_status
  judge_job source_db succeeded = do
    event client restore "RestoreJobComplete" "Restore Job completed; running integrity check"
    e ←
        set_status client restore validating restore.status.job_name "running integrity check"
          restore.status.original_replicas restore.status.start_time none
    pure (again e)
  judge_job source_db still_running = pure (requeue restore_requeue_interval)
  judge_job source_db (broken message) = do
    logs ← reads (restore_job_pod_logs client restore.metadata.namespace restore.metadata.name)
    e ← fail_restore_with_cleanup client restore source_db (failure_message message logs)
    pure (ended e)

  -- What follows the look-up of the restore Job.
  unfoldable pub with_job : LitestreamReplica → Result Job → M S Outcome
  with_job source_db (ok job) = judge_job source_db (job_verdict job.conditions)
  with_job source_db (err e) =
      if is_not_found e
      then (do
        e ← fail_restore_with_cleanup client restore source_db "restore Job not found"
        pure (ended e))
      else pure (failing (wrapped "getting restore Job" e))

  unfoldable pub reconcile_running : LitestreamReplica → M S Outcome
  reconcile_running source_db =
      reads (client.get_job (job_key restore restore.status.job_name)) >>= with_job source_db

  abbrev validation_job_name : String
  validation_job_name = restore.metadata.name <> "-validate"

  create_validation : Result Job → M S Outcome
  unfolding event
  create_validation (err e) = pure (failing e)
  create_validation (ok job) = do
    created ← send client (create_job job)
    elim (creation_failure created) [
      | some e ↦ pure (failing (wrapped "creating validation Job" e))
      | none ↦ do
        event client restore "ValidationStarted" "Running PRAGMA quick_check on restored database"
        pure (requeue restore_requeue_interval)
    ]

  abbrev integrity_failure : String
  integrity_failure =
      "integrity check failed on restored database: PRAGMA quick_check returned errors. The S3 backup may be corrupt (Litestream upstream #1164/#1220). Try creating a new LitestreamRestore CR with an earlier -timestamp."

  unfoldable pub judge_validation : LitestreamReplica → JobVerdict → M S Outcome
  unfolding event set_status
  judge_validation source_db succeeded = do
    event client restore "ValidationPassed" "Integrity check passed; scaling Deployment back up"
    e ←
        set_status client restore scaling_up restore.status.job_name "scaling Deployment back up"
          restore.status.original_replicas restore.status.start_time none
    pure (again e)
  judge_validation source_db still_running = pure (requeue restore_requeue_interval)
  judge_validation source_db (broken message) = do
    e ← fail_restore_with_cleanup client restore source_db integrity_failure
    pure (ended e)

  -- What follows the look-up of the validation Job.
  unfoldable pub with_validation_job : LitestreamReplica → Result Job → M S Outcome
  unfolding create_validation
  with_validation_job source_db (ok job) = judge_validation source_db (job_verdict job.conditions)
  with_validation_job source_db (err e) =
      if is_not_found e
      then create_validation (
          client.set_controller_reference (restore_owner restore)
            (build_validation_job restore source_db validation_job_name))
      else pure (failing (wrapped "getting validation Job" e))

  unfoldable pub reconcile_validating : LitestreamReplica → M S Outcome
  reconcile_validating source_db =
      reads (client.get_job (job_key restore validation_job_name)) >>= with_validation_job source_db
