-- ===== src/Restore/Machine.antt =====
-- The abstract machine of a restore's status, which the reconciler refines: the statuses that may
-- follow a status, each with all of its fields.
use sqlite_operator.Base.{String, ◌<>◌, ◌≡◌, ◌⊎◌, true, false, is_some}
use sqlite_operator.Api.Restore.{
  no_phase, pending, pausing, scaling_down, running, validating, scaling_up, complete, failed,
  LitestreamRestoreStatus,
}
use sqlite_operator.Restore.Status.{write_once}
use sqlite_operator.Restore.Reconcile.{is_terminal}

-- The parameters are the name of the restore and its two statuses.
pub data StatusStep (name : String) (old new : LitestreamRestoreStatus) : Type 0 where
  begin :
      (old.phase ≡ no_phase) ⊎ (old.phase ≡ pending)
      → is_some new.original_replicas ≡ true
      → is_some new.start_time ≡ true
      → new ≡ record old {
        phase = pausing;
        original_replicas = write_once old.original_replicas new.original_replicas;
        start_time = write_once old.start_time new.start_time;
        message = "pausing replication";
      }
      → StatusStep name old new
  drain :
      old.phase ≡ pausing
      → new ≡ record old { phase = scaling_down; message = "waiting for pods to terminate" }
      → StatusStep name old new
  launch :
      old.phase ≡ scaling_down
      → is_some new.start_time ≡ true
      → new ≡ record old {
        phase = running;
        job_name = name <> "-restore";
        start_time = write_once old.start_time new.start_time;
        message = "restore Job running";
      }
      → StatusStep name old new
  validate :
      old.phase ≡ running
      → new ≡ record old { phase = validating; message = "running integrity check" }
      → StatusStep name old new
  return :
      old.phase ≡ validating
      → new ≡ record old { phase = scaling_up; message = "scaling Deployment back up" }
      → StatusStep name old new
  finish :
      old.phase ≡ scaling_up
      → is_some new.completion_time ≡ true
      → new ≡ record old {
        phase = complete;
        completion_time = new.completion_time;
        message = "restore completed successfully";
      }
      → StatusStep name old new
  -- `failRestore`
  give_up :
      is_terminal old.phase ≡ false
      → is_some new.start_time ≡ true
      → is_some new.completion_time ≡ true
      → new ≡ record old {
        phase = failed;
        start_time = write_once old.start_time new.start_time;
        completion_time = new.completion_time;
        message = new.message;
      }
      → StatusStep name old new
  -- `failRestoreWithCleanup`
  roll_back :
      (old.phase ≡ running) ⊎ (old.phase ≡ validating)
      → is_some new.completion_time ≡ true
      → new ≡ record old {
        phase = failed;
        completion_time = new.completion_time;
        message = new.message;
      }
      → StatusStep name old new
