-- ===== src/Replica/Status.antt =====
-- updateStatus and clearSkipArchiveCheck.
use sqlite_operator.Base.{
  ℕ, String, ◌<>◌, Bool, true, false, not, ◌&&◌, Option, none, some, ◌==◌, exceeds, if◌then◌else◌,
}
use sqlite_operator.Base.Dict.{index}
use sqlite_operator.Kube.Errors.{Err, Result, ok, err, error_text}
use sqlite_operator.Kube.Client.{
  Client, M, pure, ◌>>=◌, ◌>>◌, reads, send, WorkloadTarget, emit_event, patch_replica,
  patch_replica_status, replica_owner, normal, warning,
}
use sqlite_operator.Api.Replica.{
  LitestreamReplica, LitestreamReplicaStatus, annotation_inject, annotation_pause,
  annotation_skip_archive_check, sidecar_injected, backup_healthy, replication_paused,
  archive_check_failed, replica_count_exceeded, ready, true_status, false_status, pending,
  ready_phase, paused, error,
}
use sqlite_operator.Workload.{
  type_name, desired_replicas, ready_replicas, pod_template_annotations, get_target_workload,
}
use sqlite_operator.Restore.Annotations.{inject_enabled, has_annotation, unannotate, replica_key}
use sqlite_operator.Replica.Conditions.{ConditionStore, with_condition}
use sqlite_operator.Replica.Target.{too_many_replicas}
use sqlite_operator.Replica.Pods.{litestream_container_state, archive_check_state}

module _ {S : Type 0} (client : Client S) where
  abbrev pub clear_latest : Result LitestreamReplica → M S (Option Err)
  clear_latest (err e) = pure (some e)
  clear_latest (ok latest) =
      if not (has_annotation latest annotation_skip_archive_check)
      then pure none
      else send client (patch_replica latest (unannotate latest annotation_skip_archive_check))

  unfoldable pub clear_skip_archive_check : LitestreamReplica → M S (Option Err)
  unfolding send
  clear_skip_archive_check db = reads (client.get_replica (replica_key db)) >>= clear_latest

  -- `r.Status().Patch(ctx, db, patch)`, at the end of a reconcile
  unfoldable pub patch_status : LitestreamReplica → LitestreamReplicaStatus → M S (Option Err)
  unfolding send
  patch_status db status = send client (patch_replica_status db (record db { status = status }))

-- Whether the pod template has the annotation for injection.
abbrev pub is_marked : WorkloadTarget → Bool
is_marked wt = index (pod_template_annotations wt) annotation_inject == inject_enabled

module _ (store : ConditionStore) (db : LitestreamReplica) (now : ℕ) where
  abbrev observed : LitestreamReplicaStatus
  observed = record (db.status) { observed_generation = db.metadata.generation }

  -- The target cannot be looked up, whatever the error is.
  unfoldable pub absent_status : Err → LitestreamReplicaStatus
  absent_status e =
      let message = "target workload not found: " <> error_text e in
      let s = record observed { phase = error; ready = false; backup_healthy = false } in
      let injected =
        with_condition store db now sidecar_injected false_status "WorkloadNotFound" message s in
      let healthy =
        with_condition store db now backup_healthy false_status "WorkloadNotFound" message
          injected in
      with_condition store db now ready false_status "WorkloadNotFound" message healthy

  unfoldable pub exceeded_status : WorkloadTarget → LitestreamReplicaStatus
  exceeded_status wt =
      with_condition store db now replica_count_exceeded true_status "TooManyReplicas"
        (too_many_replicas wt) (record observed { phase = error; ready = false })

  abbrev single_status : LitestreamReplicaStatus
  single_status = record observed {
    conditions = store.remove_status_condition replica_count_exceeded db.status.conditions;
  }

  abbrev paused_condition : LitestreamReplicaStatus → LitestreamReplicaStatus
  paused_condition s =
      if has_annotation db annotation_pause
      then with_condition store db now replication_paused true_status "PauseAnnotationSet"
          "replication paused via annotation" s
      else with_condition store db now replication_paused false_status "ReplicationActive"
          "replication is active" s

  unfoldable pub archive_failed_status : String → LitestreamReplicaStatus
  archive_failed_status msg =
      record (with_condition store db now archive_check_failed true_status "ArchiveCheckFailed" msg
        (paused_condition single_status)) { phase = error; ready = false }

  abbrev injected_condition : WorkloadTarget → LitestreamReplicaStatus → LitestreamReplicaStatus
  injected_condition wt s =
      if is_marked wt
      then with_condition store db now sidecar_injected true_status "Annotated"
          ("target " <> type_name wt <> " is annotated for sidecar injection") s
      else with_condition store db now sidecar_injected false_status "AnnotationPending"
          ("injection annotation not yet applied to target " <> type_name wt) s

  -- Up to the SidecarInjected condition.
  abbrev checked_status : WorkloadTarget → String → LitestreamReplicaStatus
  checked_status wt msg = injected_condition wt (
      with_condition store db now archive_check_failed false_status "ArchiveCheckPassed" msg
        (paused_condition single_status))

  abbrev healthy_status : Bool × String → LitestreamReplicaStatus → LitestreamReplicaStatus
  healthy_status (true, msg) s =
      with_condition store db now backup_healthy true_status "SidecarRunning" msg
        (record s { backup_healthy = true })
  healthy_status (false, msg) s =
      with_condition store db now backup_healthy false_status "SidecarUnhealthy" msg
        (record s { backup_healthy = false })

  abbrev disabled_status : LitestreamReplicaStatus → LitestreamReplicaStatus
  disabled_status s =
      with_condition store db now backup_healthy false_status "BackupDisabled"
        "backup is not enabled in spec" (record s { backup_healthy = false })

  -- The phase and the Ready condition.
  unfoldable pub final_status : WorkloadTarget → LitestreamReplicaStatus → LitestreamReplicaStatus
  final_status wt s =
      if has_annotation db annotation_pause
      then with_condition store db now ready false_status "ReplicationPaused"
          "replication is paused; waiting for pause annotation to be removed"
          (record s { phase = paused; ready = false })
      else if is_marked wt && exceeds (ready_replicas wt) 0
      then with_condition store db now ready true_status "WorkloadReady"
          ("target " <> type_name wt <> " has ready replicas")
          (record s { phase = ready_phase; ready = true })
      else with_condition store db now ready false_status "WorkloadNotReady"
          ("waiting for target " <> type_name wt <> " to have ready replicas")
          (record s { phase = pending; ready = false })

module _ {S : Type 0} (client : Client S) (store : ConditionStore) (db : LitestreamReplica) where
  -- An event where the health of the backup changes.
  unfoldable pub announce : Bool × String → M S (Option Err)
  unfolding send
  announce (true, msg) =
      if db.status.backup_healthy
      then pure none
      else send client (
          emit_event (replica_owner db) normal "BackupHealthy"
            "Litestream sidecar is running and replicating")
  announce (false, msg) =
      if db.status.backup_healthy
      then send client (emit_event (replica_owner db) warning "BackupUnhealthy" msg)
      else pure none

  -- The error of the clearing is only logged.
  unfoldable pub clear_if_healthy : Bool → M S (Option Err)
  unfolding clear_skip_archive_check
  clear_if_healthy healthy =
      if healthy && has_annotation db annotation_skip_archive_check
      then clear_skip_archive_check client db
      else pure none

  -- The BackupHealthy condition, and what is done beside it.
  unfoldable pub judge_health :
      ℕ → WorkloadTarget → LitestreamReplicaStatus → M S LitestreamReplicaStatus
  judge_health now wt s =
      if db.spec.backup.enabled
      then (do
        health ← reads (litestream_container_state client db wt)
        announce health
        clear_if_healthy health.0
        pure (healthy_status store db now health s))
      else pure (disabled_status store db now s)

  -- From the archive check on.
  unfoldable pub with_archive_check : ℕ → WorkloadTarget → Bool × String → M S (Option Err)
  unfolding patch_status
  with_archive_check now wt (true, msg) =
      patch_status client db (archive_failed_status store db now msg)
  with_archive_check now wt (false, msg) = do
    s ← judge_health now wt (checked_status store db now wt msg)
    patch_status client db (final_status store db now wt s)

  unfoldable pub with_target : ℕ → Result WorkloadTarget → M S (Option Err)
  unfolding patch_status
  with_target now (err e) = patch_status client db (absent_status store db now e)
  with_target now (ok wt) =
      if exceeds (desired_replicas wt) 1
      then patch_status client db (exceeded_status store db now wt)
      else reads (archive_check_state client db wt) >>= with_archive_check now wt

  unfoldable pub update_status : M S (Option Err)
  update_status = do wt ← get_target_workload client db; now ← reads client.now; with_target now wt
