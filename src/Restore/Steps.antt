-- ===== src/Restore/Steps.antt =====
-- The statuses that the handlers of the phases write are steps of the abstract machine.
use text.Mathlib.TextLemmas.{append-ne-nil_of_right_ne-nil}
use sqlite_operator.Base.{
  String, ◌<>◌, ◌≡◌, ◌≢◌, ◌⊎◌, inl, inr, refl, ap, false, some, [], arith, eq_iff, exceeds, ℤ,
  Bool-cases,
}
use sqlite_operator.Kube.Errors.{Result, ok, err, is_not_found}
use sqlite_operator.Kube.Objects.{Job}
use sqlite_operator.Kube.Client.{WorkloadTarget, Client, World, start}
use sqlite_operator.Api.Replica.{LitestreamReplica, S3Destination}
use sqlite_operator.Api.Restore.{
  no_phase, pending, pausing, scaling_down, running, validating, scaling_up, LitestreamRestore,
  LitestreamRestoreStatus,
}
use sqlite_operator.Workload.{running_replicas, target_for_restore}
use sqlite_operator.Restore.Status.{fail_restore, fail_restore_with_cleanup}
use sqlite_operator.Restore.Phases.{
  JobVerdict, succeeded, still_running, broken, job_verdict, judge_job, judge_validation, with_job,
  with_validation_job, launch_job, await_pods, scale_down, pause_with, record_replicas,
  reconcile_pausing, reconcile_scaling_up,
}
use sqlite_operator.Restore.Reconcile.{is_terminal}
use sqlite_operator.Restore.Machine.{
  StatusStep, begin, drain, launch, validate, return, finish, give_up, roll_back,
}
use sqlite_operator.Restore.Trace.{written_status}

job_name-ne-nil : (name : String) → (name <> "-restore") ≢ ""
job_name-ne-nil name =
    append-ne-nil_of_right_ne-nil name (λ e. ground (arith, eq_iff "-restore" ""))

module _ {S : Type 0} (client : Client S) (restore : LitestreamRestore)
    (s : LitestreamRestoreStatus) where
  pub fail_restore-StatusStep :
      (m : String) (w : World S)
      → is_terminal restore.status.phase ≡ false
      → written_status (fail_restore client restore m w).1.sent ≡ some s
      → StatusStep restore.metadata.name restore.status s
  unfolding fail_restore
  fail_restore-StatusStep m w p h = give_up p (ground arith) (ground arith) (ground arith)

  scale_down-StatusStep :
      (r : Result WorkloadTarget) (w : World S)
      → w.sent ≡ []
      → restore.status.phase ≡ pausing
      → written_status (scale_down client restore r w).1.sent ≡ some s
      → StatusStep restore.metadata.name restore.status s
  unfolding scale_down
  scale_down-StatusStep (ok wt) w n p h =
      let wrote_none = ap written_status n in
      drain p (ground (arith, eq_iff restore.status.job_name ""))
  scale_down-StatusStep (err e) w n p h =
      grind (arith, drain, give_up, eq_iff restore.status.job_name "")

module _ {S : Type 0} (client : Client S) (restore : LitestreamRestore)
    (source_db : LitestreamReplica) (s : LitestreamRestoreStatus) where
  cleanup-StatusStep :
      (msg : String) (w : World S)
      → (restore.status.phase ≡ running) ⊎ (restore.status.phase ≡ validating)
      → written_status (fail_restore_with_cleanup client restore source_db msg w).1.sent ≡ some s
      → StatusStep restore.metadata.name restore.status s
  unfolding fail_restore_with_cleanup
  cleanup-StatusStep msg w p h =
      roll_back p (ground arith) (ground (arith, eq_iff restore.status.job_name ""))

  judge_job-StatusStep :
      (v : JobVerdict) (w : World S)
      → w.sent ≡ []
      → restore.status.phase ≡ running
      → written_status (judge_job client restore source_db v w).1.sent ≡ some s
      → StatusStep restore.metadata.name restore.status s
  unfolding judge_job
  judge_job-StatusStep succeeded w n p h =
      validate p (ground (arith, eq_iff restore.status.job_name ""))
  judge_job-StatusStep still_running w n p h = absurd (ground (arith, ap written_status n))
  judge_job-StatusStep (broken m) w n p h = cleanup-StatusStep _ w (inl p) h

  judge_validation-StatusStep :
      (v : JobVerdict) (w : World S)
      → w.sent ≡ []
      → restore.status.phase ≡ validating
      → written_status (judge_validation client restore source_db v w).1.sent ≡ some s
      → StatusStep restore.metadata.name restore.status s
  unfolding judge_validation
  judge_validation-StatusStep succeeded w n p h =
      return p (ground (arith, eq_iff restore.status.job_name ""))
  judge_validation-StatusStep still_running w n p h = absurd (ground (arith, ap written_status n))
  judge_validation-StatusStep (broken m) w n p h = cleanup-StatusStep _ w (inr p) h

  pub with_job-StatusStep :
      (r : Result Job) (c : S)
      → restore.status.phase ≡ running
      → written_status (with_job client restore source_db r (start c)).1.sent ≡ some s
      → StatusStep restore.metadata.name restore.status s
  unfolding with_job
  with_job-StatusStep (ok job) c p h =
      judge_job-StatusStep (job_verdict job.conditions) (start c) refl p h
  with_job-StatusStep (err e) c p h =
      ground (arith, cleanup-StatusStep "restore Job not found" (start c) (inl p))

  pub with_validation_job-StatusStep :
      (r : Result Job) (c : S)
      → restore.status.phase ≡ validating
      → written_status (with_validation_job client restore source_db r (start c)).1.sent ≡ some s
      → StatusStep restore.metadata.name restore.status s
  unfolding with_validation_job
  with_validation_job-StatusStep (ok job) c p h =
      judge_validation-StatusStep (job_verdict job.conditions) (start c) refl p h
  with_validation_job-StatusStep (err e) c p h = absurd (ground arith)

  launch_job-StatusStep :
      (s3 : S3Destination) (w : World S)
      → w.sent ≡ []
      → restore.status.phase ≡ scaling_down
      → written_status (launch_job client restore source_db s3 w).1.sent ≡ some s
      → StatusStep restore.metadata.name restore.status s
  unfolding launch_job
  launch_job-StatusStep s3 w n p h =
      let wrote_none = ap written_status n in
      let named = job_name-ne-nil restore.metadata.name in
      launch p (ground arith) (ground (arith, eq_iff (restore.metadata.name <> "-restore") ""))

  pub await_pods-StatusStep :
      (r : Result WorkloadTarget) (s3 : S3Destination) (c : S)
      → restore.status.phase ≡ scaling_down
      → written_status (await_pods client restore source_db s3 r (start c)).1.sent ≡ some s
      → StatusStep restore.metadata.name restore.status s
  unfolding await_pods
  await_pods-StatusStep (ok wt) s3 c p h = elim (Bool-cases (exceeds (running_replicas wt) 0)) [
    | inl t ↦ cc (rw t at h)
    | inr f ↦ launch_job-StatusStep s3 (start c) refl p (rw f at h)
  ]
  await_pods-StatusStep (err e) s3 c p h = elim (Bool-cases (is_not_found e)) [
    | inl t ↦ launch_job-StatusStep s3 (start c) refl p (rw t at h)
    | inr f ↦ fail_restore-StatusStep client restore s _ (start c) (ground arith) (rw f at h)
  ]

  pub pausing-StatusStep :
      (c : S)
      → restore.status.phase ≡ pausing
      → written_status (reconcile_pausing client restore source_db (start c)).1.sent ≡ some s
      → StatusStep restore.metadata.name restore.status s
  unfolding reconcile_pausing
  pausing-StatusStep c p h = ground (
    arith,
    scale_down-StatusStep client restore s (target_for_restore client source_db c) (start c) refl p,
  )

  pause_with-StatusStep :
      (n : ℤ) (w : World S)
      → w.sent ≡ []
      → (restore.status.phase ≡ no_phase) ⊎ (restore.status.phase ≡ pending)
      → written_status (pause_with client restore source_db n w).1.sent ≡ some s
      → StatusStep restore.metadata.name restore.status s
  unfolding pause_with
  pause_with-StatusStep n w none_sent p h =
      let wrote_none = ap written_status none_sent in
      begin p (ground arith) (ground arith) (ground (arith, eq_iff restore.status.job_name ""))

  pub record_replicas-StatusStep :
      (r : Result WorkloadTarget) (c : S)
      → (restore.status.phase ≡ no_phase) ⊎ (restore.status.phase ≡ pending)
      → written_status (record_replicas client restore source_db r (start c)).1.sent ≡ some s
      → StatusStep restore.metadata.name restore.status s
  unfolding record_replicas
  record_replicas-StatusStep (ok wt) c p h = pause_with-StatusStep _ (start c) refl p h
  record_replicas-StatusStep (err e) c p h = elim (Bool-cases (is_not_found e)) [
    | inl t ↦ pause_with-StatusStep _ (start c) refl p (rw t at h)
    | inr f ↦ fail_restore-StatusStep client restore s _ (start c) (ground arith) (rw f at h)
  ]

  pub scaling_up-StatusStep :
      (c : S)
      → restore.status.phase ≡ scaling_up
      → written_status (reconcile_scaling_up client restore source_db (start c)).1.sent ≡ some s
      → StatusStep restore.metadata.name restore.status s
  unfolding reconcile_scaling_up
  scaling_up-StatusStep c p h =
      finish p (ground arith) (ground (arith, eq_iff restore.status.job_name ""))
