-- ===== src/Restore/SourceLoss.antt =====
-- What a failed look-up of the source does to a restore that is under way.
use sqlite_operator.Base.{◌≡◌, false, some, [], arith}
use sqlite_operator.Kube.Errors.{Err, err}
use sqlite_operator.Kube.Client.{Client}
use sqlite_operator.Api.Restore.{failed, LitestreamRestore}
use sqlite_operator.Restore.Status.{fail_restore}
use sqlite_operator.Restore.Reconcile.{is_terminal, source_key, with_source, reconcile_restore}
use sqlite_operator.Restore.Trace.{written_phase, scale_targets, patches_replica, writes_of}

module _ {S : Type 0} (client : Client S) (restore : LitestreamRestore) where
  -- Any error of the look-up of the source, a passing one too, ends a restore in every phase that is
  -- not terminal: the status Failed is written, the workload is not scaled back, and the pause
  -- annotation is not taken away.
  pub source_error_strands :
      (c : S) (e : Err)
      → is_terminal restore.status.phase ≡ false
      → client.get_replica (source_key restore) c ≡ err e
      → (written_phase (writes_of client restore c) ≡ some failed)
        × (scale_targets (writes_of client restore c) ≡ [])
        × (patches_replica (writes_of client restore c) ≡ false)
  unfolding reconcile_restore with_source fail_restore
  source_error_strands c e t h = ground arith
