-- ===== src/Restore/Refinement.antt =====
-- The restore reconciler refines the abstract machine.
use sqlite_operator.Base.{◌≡◌, inl, inr, refl, false, Option, none, some, arith}
use sqlite_operator.Kube.Errors.{Result, ok, err}
use sqlite_operator.Kube.Client.{Client, start}
use sqlite_operator.Api.Replica.{LitestreamReplica, S3Destination}
use sqlite_operator.Api.Restore.{
  RestorePhase, no_phase, pending, pausing, scaling_down, running, validating, scaling_up, complete,
  failed, unknown, LitestreamRestore, LitestreamRestoreStatus,
}
use sqlite_operator.Restore.Phases.{
  reconcile_pending, reconcile_scaling_down, reconcile_running, reconcile_validating,
}
use sqlite_operator.Restore.Reconcile.{
  is_terminal, source_key, dispatch, with_destination, with_source, reconcile_restore,
}
use sqlite_operator.Restore.Machine.{StatusStep}
use sqlite_operator.Restore.Trace.{written_status, writes_of}
use sqlite_operator.Restore.Steps.{
  fail_restore-StatusStep, record_replicas-StatusStep, pausing-StatusStep, await_pods-StatusStep,
  with_job-StatusStep, with_validation_job-StatusStep, scaling_up-StatusStep,
}

module _ {S : Type 0} (client : Client S) (restore : LitestreamRestore) (c : S)
    (s : LitestreamRestoreStatus) where
  dispatch-StatusStep :
      (db : LitestreamReplica) (s3 : S3Destination) (p : RestorePhase)
      → restore.status.phase ≡ p
      → written_status (dispatch client p restore db s3 (start c)).1.sent ≡ some s
      → StatusStep restore.metadata.name restore.status s
  unfolding dispatch reconcile_pending reconcile_scaling_down reconcile_running reconcile_validating
  dispatch-StatusStep db s3 no_phase e h =
      record_replicas-StatusStep client restore db s _ c (inl e) h
  dispatch-StatusStep db s3 pending e h =
      record_replicas-StatusStep client restore db s _ c (inr e) h
  dispatch-StatusStep db s3 pausing e h = pausing-StatusStep client restore db s c e h
  dispatch-StatusStep db s3 scaling_down e h = await_pods-StatusStep client restore db s _ s3 c e h
  dispatch-StatusStep db s3 running e h = with_job-StatusStep client restore db s _ c e h
  dispatch-StatusStep db s3 validating e h =
      with_validation_job-StatusStep client restore db s _ c e h
  dispatch-StatusStep db s3 scaling_up e h = scaling_up-StatusStep client restore db s c e h
  dispatch-StatusStep db s3 complete e h = cc
  dispatch-StatusStep db s3 failed e h = cc
  dispatch-StatusStep db s3 (unknown t) e h = cc

  with_destination-StatusStep :
      (db : LitestreamReplica) (d : Option S3Destination)
      → is_terminal restore.status.phase ≡ false
      → written_status (with_destination client restore db d (start c)).1.sent ≡ some s
      → StatusStep restore.metadata.name restore.status s
  unfolding with_destination
  with_destination-StatusStep db none p h = fail_restore-StatusStep client restore s _ (start c) p h
  with_destination-StatusStep db (some s3) p h = dispatch-StatusStep db s3 _ refl h

  with_source-StatusStep :
      (r : Result LitestreamReplica)
      → is_terminal restore.status.phase ≡ false
      → written_status (with_source client restore r (start c)).1.sent ≡ some s
      → StatusStep restore.metadata.name restore.status s
  unfolding with_source
  with_source-StatusStep (ok db) p h = with_destination-StatusStep db _ p h
  with_source-StatusStep (err e) p h = fail_restore-StatusStep client restore s _ (start c) p h

  -- Every status that a reconcile writes is a step of the abstract machine from the status that the
  -- restore had, whatever the client answers.
  pub writes_of-StatusStep :
      written_status (writes_of client restore c) ≡ some s
      → StatusStep restore.metadata.name restore.status s
  unfolding reconcile_restore
  writes_of-StatusStep h =
      ground (arith, with_source-StatusStep (client.get_replica (source_key restore) c))
