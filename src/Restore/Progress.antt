-- ===== src/Restore/Progress.antt =====
-- Progress: where no call fails and the awaited condition holds, a reconcile moves a restore on.
use sqlite_operator.Base.{◌<>◌, Bool, ◌≡◌, refl, true, false, none, some, arith}
use sqlite_operator.Kube.Errors.{Result, ok, err, is_not_found}
use sqlite_operator.Kube.Objects.{Job, ConfigMap}
use sqlite_operator.Kube.Client.{Client, World, start, WorkloadTarget, Write, Owner}
use sqlite_operator.Api.Replica.{LitestreamReplica, S3Destination, annotation_pause}
use sqlite_operator.Api.Restore.{
  RestorePhase, no_phase, pending, pausing, scaling_down, running, validating, scaling_up, complete,
  failed, unknown, LitestreamRestore,
}
use sqlite_operator.Workload.{target_for_restore}
use sqlite_operator.Restore.Annotations.{
  has_annotation, replica_key, set_skip_archive_check, resume_replication,
}
use sqlite_operator.Restore.Phases.{
  is_paused_config, config_key, job_key, succeeded, job_verdict, judge_job, judge_validation,
  with_job, with_validation_job, launch_job, await_pods, scale_down, record_replicas, pause_with,
  reconcile_pending, reconcile_pausing, reconcile_scaling_down, reconcile_running,
  reconcile_validating, reconcile_scaling_up,
}
use sqlite_operator.Restore.Reconcile.{
  is_terminal, active_destination, source_key, dispatch, with_destination, with_source,
  reconcile_restore,
}
use sqlite_operator.Restore.JobGuard.{IsAtRest}
use sqlite_operator.Restore.Trace.{written_phase, writes_of}

abbrev pub IsOk {ℓ} : {A : Type ℓ} → Result A → Type 0
IsOk (ok a) = Unit {0}
IsOk (err e) = ⊥

-- No write fails, and a Job takes an owner reference.
pub record IsCalm {S : Type 0} (client : Client S) : Type 0 where
  pub sends : (x : Write) (c : S) → (client.send x c).0 ≡ none
  pub owns : (o : Owner) (j : Job) → IsOk (client.set_controller_reference o j)

-- The workload was found, or is known to be gone.
abbrev pub IsDecided : Result WorkloadTarget → Type 0
IsDecided (ok wt) = Unit {0}
IsDecided (err e) = is_not_found e ≡ true

abbrev pub HoldsText : Bool → Result ConfigMap → Type 0
HoldsText paused (ok cm) = is_paused_config cm ≡ paused
HoldsText paused (err e) = ⊥

abbrev HasSucceeded : Result Job → Type 0
HasSucceeded (ok job) = job_verdict job.conditions ≡ succeeded
HasSucceeded (err e) = ⊥

-- The worlds behind the first and the second patch of ScalingUp.
abbrev pub skipping : {S : Type 0} → Client S → LitestreamReplica → S → World S
skipping client db c = (set_skip_archive_check client db true (start c)).1

abbrev pub resumed : {S : Type 0} → Client S → LitestreamReplica → S → World S
resumed client db c = (resume_replication client db (skipping client db c)).1

-- What a phase waits for. In ScalingUp the source is looked up before each of two patches, and the
-- ConfigMap is read behind them.
abbrev pub Awaits :
    {S : Type 0} → Client S → LitestreamRestore → LitestreamReplica → S → RestorePhase → Type 0
Awaits client restore db c no_phase = IsDecided (target_for_restore client db c)
Awaits client restore db c pending = IsDecided (target_for_restore client db c)
Awaits client restore db c pausing =
    (has_annotation db annotation_pause ≡ true)
    × HoldsText true (client.get_config_map (config_key db) c)
    × IsDecided (target_for_restore client db c)
Awaits client restore db c scaling_down = IsAtRest (target_for_restore client db c)
Awaits client restore db c running =
    HasSucceeded (client.get_job (job_key restore restore.status.job_name) c)
Awaits client restore db c validating =
    HasSucceeded (client.get_job (job_key restore (restore.metadata.name <> "-validate")) c)
Awaits client restore db c scaling_up =
    IsOk (client.get_replica (replica_key db) c)
    × IsOk (client.get_replica (replica_key db) (skipping client db c).cluster)
    × HoldsText false (client.get_config_map (config_key db) (resumed client db c).cluster)
Awaits client restore db c _ = ⊥

-- The phase after one that makes progress.
abbrev pub next : RestorePhase → RestorePhase
next no_phase = pausing
next pending = pausing
next pausing = scaling_down
next scaling_down = running
next running = validating
next validating = scaling_up
next scaling_up = complete
next p = p

module _ {S : Type 0} (client : Client S) (restore : LitestreamRestore) (calm : IsCalm client) where
  pending-progress :
      (db : LitestreamReplica) (c : S)
      → IsDecided (target_for_restore client db c)
      → written_phase (reconcile_pending client restore db (start c)).1.sent ≡ some pausing
  unfolding reconcile_pending record_replicas pause_with
  pending-progress db c d = grind (arith, calm.sends)

  pausing-progress :
      (db : LitestreamReplica) (c : S)
      → Awaits client restore db c pausing
      → written_phase (reconcile_pausing client restore db (start c)).1.sent ≡ some scaling_down
  unfolding reconcile_pausing scale_down
  pausing-progress db c d = grind (arith, calm.sends)

  launch_job-progress :
      (db : LitestreamReplica) (s3 : S3Destination) (c : S)
      → written_phase (launch_job client restore db s3 (start c)).1.sent ≡ some running
  unfolding launch_job
  launch_job-progress db s3 c = grind (arith, calm.sends, calm.owns)

  await_pods-progress :
      (db : LitestreamReplica) (s3 : S3Destination) (r : Result WorkloadTarget) (c : S)
      → IsAtRest r
      → written_phase (await_pods client restore db s3 r (start c)).1.sent ≡ some running
  unfolding await_pods
  await_pods-progress db s3 (ok wt) c d = rw d (launch_job-progress db s3 c)
  await_pods-progress db s3 (err e) c d = rw d (launch_job-progress db s3 c)

  with_job-progress :
      (db : LitestreamReplica) (r : Result Job) (c : S)
      → HasSucceeded r
      → written_phase (with_job client restore db r (start c)).1.sent ≡ some validating
  unfolding with_job judge_job
  with_job-progress db (ok job) c d = rw d refl
  with_job-progress db (err e) c d = absurd d

  with_validation_job-progress :
      (db : LitestreamReplica) (r : Result Job) (c : S)
      → HasSucceeded r
      → written_phase (with_validation_job client restore db r (start c)).1.sent ≡ some scaling_up
  unfolding with_validation_job judge_validation
  with_validation_job-progress db (ok job) c d = rw d refl
  with_validation_job-progress db (err e) c d = absurd d

  scaling_up-progress :
      (db : LitestreamReplica) (c : S)
      → Awaits client restore db c scaling_up
      → written_phase (reconcile_scaling_up client restore db (start c)).1.sent ≡ some complete
  unfolding reconcile_scaling_up set_skip_archive_check resume_replication
  scaling_up-progress db c (found, again, unpaused) =
      grind (arith, calm.sends, found, again, unpaused)

  dispatch-progress :
      (db : LitestreamReplica) (s3 : S3Destination) (p : RestorePhase) (c : S)
      → Awaits client restore db c p
      → written_phase (dispatch client p restore db s3 (start c)).1.sent ≡ some (next p)
  unfolding dispatch reconcile_scaling_down reconcile_running reconcile_validating
  dispatch-progress db s3 no_phase c a = pending-progress db c a
  dispatch-progress db s3 pending c a = pending-progress db c a
  dispatch-progress db s3 pausing c a = pausing-progress db c a
  dispatch-progress db s3 scaling_down c a = await_pods-progress db s3 _ c a
  dispatch-progress db s3 running c a = with_job-progress db _ c a
  dispatch-progress db s3 validating c a = with_validation_job-progress db _ c a
  dispatch-progress db s3 scaling_up c a = scaling_up-progress db c a
  dispatch-progress db s3 complete c a = absurd a
  dispatch-progress db s3 failed c a = absurd a
  dispatch-progress db s3 (unknown t) c a = absurd a

  awaiting_is_not_terminal :
      (db : LitestreamReplica) (c : S) (p : RestorePhase)
      → Awaits client restore db c p
      → is_terminal p ≡ false
  awaiting_is_not_terminal db c no_phase a = refl
  awaiting_is_not_terminal db c complete a = absurd a
  awaiting_is_not_terminal db c failed a = absurd a
  awaiting_is_not_terminal db c _ a = refl

  with_source-progress :
      (db : LitestreamReplica) (s3 : S3Destination) (c : S)
      → active_destination db.spec.backup ≡ some s3
      → Awaits client restore db c restore.status.phase
      → written_phase (with_source client restore (ok db) (start c)).1.sent
        ≡ some (next restore.status.phase)
  unfolding with_source with_destination
  with_source-progress db s3 c d a = rw (d, written_phase) (dispatch-progress db s3 _ c a)

  -- Where no write fails and a Job takes an owner, and the source is found with a destination, a
  -- reconcile in a phase whose awaited condition holds writes the next phase.
  pub writes_of-progress :
      (db : LitestreamReplica) (s3 : S3Destination) (c : S)
      → client.get_replica (source_key restore) c ≡ ok db
      → active_destination db.spec.backup ≡ some s3
      → Awaits client restore db c restore.status.phase
      → written_phase (writes_of client restore c) ≡ some (next restore.status.phase)
  unfolding reconcile_restore
  writes_of-progress db s3 c g d a =
      ground (arith, with_source-progress db s3 c d a, awaiting_is_not_terminal db c _ a)
