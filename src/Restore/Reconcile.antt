-- ===== src/Restore/Reconcile.antt =====
-- `LitestreamRestoreReconciler.Reconcile`
use sqlite_operator.Base.{String, ◌<>◌, Bool, true, false, Option, none, some, if◌then◌else◌}
use sqlite_operator.Base.Strings.{quote}
use sqlite_operator.Kube.Objects.{NamespacedName}
use sqlite_operator.Kube.Errors.{Result, ok, err, error_text, is_not_found}
use sqlite_operator.Kube.Client.{Client, M, pure, ◌>>=◌, reads, Outcome, finished, failing}
use sqlite_operator.Api.Replica.{BackupSpec, S3Destination, LitestreamReplica}
use sqlite_operator.Api.Restore.{
  RestorePhase, no_phase, pending, pausing, scaling_down, running, validating, scaling_up, complete,
  failed, unknown, LitestreamRestore,
}
use sqlite_operator.Restore.Status.{fail_restore}
use sqlite_operator.Restore.Phases.{
  ended, reconcile_pending, reconcile_pausing, reconcile_scaling_down, reconcile_running,
  reconcile_validating, reconcile_scaling_up,
}

-- `Status.Phase == RestorePhaseComplete || Status.Phase == RestorePhaseFailed`
abbrev pub is_terminal : RestorePhase → Bool
is_terminal complete = true
is_terminal failed = true
is_terminal _ = false

-- The destination of a backup that is enabled.
abbrev pub active_destination : BackupSpec → Option S3Destination
active_destination backup = if backup.enabled then backup.destination.s3 else none

abbrev pub source_key : LitestreamRestore → NamespacedName
source_key restore = record {
  namespace = restore.metadata.namespace;
  name = restore.spec.source_ref;
}

module _ {S : Type 0} (client : Client S) where
  -- The switch on the phase.
  unfoldable pub dispatch :
      RestorePhase → LitestreamRestore → LitestreamReplica → S3Destination → M S Outcome
  dispatch no_phase restore source_db s3 = reconcile_pending client restore source_db
  dispatch pending restore source_db s3 = reconcile_pending client restore source_db
  dispatch pausing restore source_db s3 = reconcile_pausing client restore source_db
  dispatch scaling_down restore source_db s3 = reconcile_scaling_down client restore source_db s3
  dispatch running restore source_db s3 = reconcile_running client restore source_db
  dispatch validating restore source_db s3 = reconcile_validating client restore source_db
  dispatch scaling_up restore source_db s3 = reconcile_scaling_up client restore source_db
  dispatch complete restore source_db s3 = pure finished
  dispatch failed restore source_db s3 = pure finished
  dispatch (unknown text) restore source_db s3 = pure finished

  fail_with : LitestreamRestore → String → M S Outcome
  unfolding fail_restore
  fail_with restore msg = do e ← fail_restore client restore msg; pure (ended e)

  unfoldable pub with_destination :
      LitestreamRestore → LitestreamReplica → Option S3Destination → M S Outcome
  unfolding fail_with
  with_destination restore source_db none = fail_with restore (
      "LitestreamReplica "
      <> quote restore.spec.source_ref
      <> " does not have backup enabled with an S3 destination")
  with_destination restore source_db (some s3) = dispatch restore.status.phase restore source_db s3

  unfoldable pub with_source : LitestreamRestore → Result LitestreamReplica → M S Outcome
  unfolding fail_with
  with_source restore (err e) =
      fail_with restore
        ("LitestreamReplica " <> quote restore.spec.source_ref <> " not found: " <> error_text e)
  with_source restore (ok source_db) =
      with_destination restore source_db (active_destination source_db.spec.backup)

  -- From the look-up of the source on.
  unfoldable pub reconcile_restore : LitestreamRestore → M S Outcome
  reconcile_restore restore =
      if is_terminal restore.status.phase
      then pure finished
      else reads (client.get_replica (source_key restore)) >>= with_source restore

  abbrev pub with_restore : Result LitestreamRestore → M S Outcome
  with_restore (ok restore) = reconcile_restore restore
  with_restore (err e) = if is_not_found e then pure finished else pure (failing e)

  unfoldable pub reconcile : NamespacedName → M S Outcome
  reconcile req = reads (client.get_restore req) >>= with_restore
