-- ===== src/Restore/Status.antt =====
-- setStatus, failRestore and failRestoreWithCleanup.
use sqlite_operator.Base.{
  ℕ, String, ◌&&◌, Option, none, some, ◌==◌, ℤ, pos, exceeds, eq_ℤ, or_default, if◌then◌else◌,
}
use sqlite_operator.Kube.Errors.{Err, Result, ok, err}
use sqlite_operator.Kube.Client.{
  WorkloadTarget, patch_restore_status, emit_event, restore_owner, warning, Client, M, pure, ◌>>=◌,
  ◌>>◌, reads, send,
}
use sqlite_operator.Api.Replica.{LitestreamReplica}
use sqlite_operator.Api.Restore.{RestorePhase, failed, LitestreamRestore, LitestreamRestoreStatus}
use sqlite_operator.Workload.{running_replicas, get_target_workload_for_restore, scale_workload}
use sqlite_operator.Restore.Annotations.{resume_replication}

-- A pointer that is written only where it was nil.
abbrev pub write_once {ℓ} : {A : Type ℓ} → Option A → Option A → Option A
write_once (some old) new = some old
write_once none new = new

-- A pointer that is written where the new one is not nil.
abbrev pub overwrite {ℓ} : {A : Type ℓ} → Option A → Option A → Option A
overwrite old none = old
overwrite old (some new) = some new

-- The status that `setStatus` writes.
unfoldable pub updated_status :
    LitestreamRestoreStatus
    → RestorePhase
    → String
    → String
    → Option ℤ
    → Option ℕ
    → Option ℕ
    → LitestreamRestoreStatus
updated_status old phase job_name message original_replicas start_time completion_time = record {
  phase = phase;
  job_name = if job_name == "" then old.job_name else job_name;
  original_replicas = write_once old.original_replicas original_replicas;
  start_time = write_once old.start_time start_time;
  completion_time = overwrite old.completion_time completion_time;
  message = message;
}

-- The replica count to which a workload is scaled back.
abbrev pub scale_back_target : LitestreamRestore → ℤ
scale_back_target restore = or_default restore.status.original_replicas (pos 1)

module _ {S : Type 0} (client : Client S) where
  unfoldable pub set_status :
      LitestreamRestore
      → RestorePhase
      → String
      → String
      → Option ℤ
      → Option ℕ
      → Option ℕ
      → M S (Option Err)
  unfolding send updated_status
  set_status restore phase job_name message original_replicas start_time completion_time =
      send client (
        patch_restore_status restore (record restore {
          status =
              updated_status restore.status phase job_name message original_replicas start_time
                completion_time;
        }))

  unfoldable pub fail_restore : LitestreamRestore → String → M S (Option Err)
  unfolding set_status
  fail_restore restore msg = do
    send client (emit_event (restore_owner restore) warning "RestoreFailed" msg)
    now ← reads client.now
    set_status restore failed "" msg none (some now) (some now)

  -- Best effort: what the scaling answers is only logged.
  abbrev scale_back : LitestreamRestore → Result WorkloadTarget → M S (Option Err)
  scale_back restore (err e) = pure none
  scale_back restore (ok wt) =
      if eq_ℤ (running_replicas wt) (pos 0) && exceeds (scale_back_target restore) 0
      then scale_workload client wt (scale_back_target restore)
      else pure none

  unfoldable pub fail_restore_with_cleanup :
      LitestreamRestore → LitestreamReplica → String → M S (Option Err)
  unfolding set_status scale_workload resume_replication
  fail_restore_with_cleanup restore source_db msg = do
    wt ← get_target_workload_for_restore client source_db
    scale_back restore wt
    resume_replication client source_db
    send client (emit_event (restore_owner restore) warning "RestoreFailed" msg)
    now ← reads client.now
    set_status restore failed restore.status.job_name msg restore.status.original_replicas
        restore.status.start_time (some now)
