-- ===== src/Restore/ScaleSteps.antt =====
-- The replica counts that the handlers of the phases write.
use sqlite_operator.Base.{◌≡◌, ◌⊎◌, inl, refl, true, some, [], ◌∷◌, arith, pos, ap, String}
use sqlite_operator.Kube.Errors.{Result, ok, err}
use sqlite_operator.Kube.Objects.{Job, ConfigMap}
use sqlite_operator.Kube.Client.{Client, World, start, WorkloadTarget}
use sqlite_operator.Api.Replica.{LitestreamReplica, S3Destination, annotation_pause}
use sqlite_operator.Api.Restore.{failed, LitestreamRestore}
use sqlite_operator.Restore.Annotations.{has_annotation, resume_replication}
use sqlite_operator.Restore.Status.{scale_back_target, fail_restore_with_cleanup}
use sqlite_operator.Restore.Phases.{
  is_paused_config, config_key, JobVerdict, succeeded, still_running, broken, judge_job,
  judge_validation, with_job, with_validation_job, launch_job, await_pods, scale_down,
  record_replicas, pause_with, reconcile_pending, reconcile_pausing, reconcile_scaling_up,
}
use sqlite_operator.Restore.Trace.{written_phase, scale_targets}

-- The ConfigMap that was read holds the paused text.
abbrev pub HoldsPaused : Result ConfigMap → Type 0
HoldsPaused (ok cm) = is_paused_config cm ≡ true
HoldsPaused (err e) = ⊥

-- The source carries the pause annotation, and its ConfigMap holds the paused text.
abbrev pub IsPausedSource : {S : Type 0} → Client S → S → Result LitestreamReplica → Type 0
IsPausedSource client c (ok db) =
    (has_annotation db annotation_pause ≡ true)
    × HoldsPaused (client.get_config_map (config_key db) c)
IsPausedSource client c (err e) = ⊥

module _ {S : Type 0} (client : Client S) (restore : LitestreamRestore)
    (db : LitestreamReplica) where
  resume-scale_targets :
      (w : World S) → scale_targets (resume_replication client db w).1.sent ≡ scale_targets w.sent
  unfolding resume_replication
  resume-scale_targets w = ground arith

  cleanup-scale_targets :
      (m : String) (w : World S)
      → w.sent ≡ []
      → ((scale_targets (fail_restore_with_cleanup client restore db m w).1.sent ≡ [])
          ⊎ (scale_targets (fail_restore_with_cleanup client restore db m w).1.sent
              ≡ some (scale_back_target restore) ∷ []))
        × (written_phase (fail_restore_with_cleanup client restore db m w).1.sent ≡ some failed)
  unfolding fail_restore_with_cleanup
  cleanup-scale_targets m w n = (ground (arith, ap scale_targets n), ground arith)

  -- A scaling to the recorded count beside the status Failed, or no scaling.
  abbrev pub RollsBack : World S → Type 0
  RollsBack w =
      (scale_targets w.sent ≡ [])
      ⊎ ((scale_targets w.sent ≡ some (scale_back_target restore) ∷ [])
          × (written_phase w.sent ≡ some failed))

  cleanup-RollsBack :
      (m : String) (w : World S)
      → w.sent ≡ []
      → RollsBack (fail_restore_with_cleanup client restore db m w).1
  cleanup-RollsBack m w n = ground (arith, cleanup-scale_targets m w n)

  judge_job-RollsBack :
      (v : JobVerdict) (w : World S) → w.sent ≡ [] → RollsBack (judge_job client restore db v w).1
  unfolding judge_job
  judge_job-RollsBack succeeded w n = ground (arith, ap scale_targets n)
  judge_job-RollsBack still_running w n = inl (ap scale_targets n)
  judge_job-RollsBack (broken m) w n = cleanup-RollsBack _ w n

  judge_validation-RollsBack :
      (v : JobVerdict) (w : World S)
      → w.sent ≡ []
      → RollsBack (judge_validation client restore db v w).1
  unfolding judge_validation
  judge_validation-RollsBack succeeded w n = ground (arith, ap scale_targets n)
  judge_validation-RollsBack still_running w n = inl (ap scale_targets n)
  judge_validation-RollsBack (broken m) w n = cleanup-RollsBack _ w n

  pub with_job-RollsBack :
      (r : Result Job) (c : S) → RollsBack (with_job client restore db r (start c)).1
  unfolding with_job
  with_job-RollsBack (ok job) c = judge_job-RollsBack _ (start c) refl
  with_job-RollsBack (err e) c =
      ground (arith, cleanup-RollsBack "restore Job not found" (start c) refl)

  pub with_validation_job-RollsBack :
      (r : Result Job) (c : S) → RollsBack (with_validation_job client restore db r (start c)).1
  unfolding with_validation_job
  with_validation_job-RollsBack (ok job) c = judge_validation-RollsBack _ (start c) refl
  with_validation_job-RollsBack (err e) c = ground arith

  pub pausing-scale_targets :
      (c : S)
      → let w = (reconcile_pausing client restore db (start c)).1 in
        (scale_targets w.sent ≡ [])
        ⊎ ((scale_targets w.sent ≡ some (pos 0) ∷ []) × IsPausedSource client c (ok db))
  unfolding reconcile_pausing scale_down
  pausing-scale_targets c = ground arith

  pub pending-scale_targets :
      (c : S) → scale_targets (reconcile_pending client restore db (start c)).1.sent ≡ []
  unfolding reconcile_pending record_replicas pause_with
  pending-scale_targets c = ground arith

  pub launching-scale_targets :
      (r : Result WorkloadTarget) (s3 : S3Destination) (c : S)
      → scale_targets (await_pods client restore db s3 r (start c)).1.sent ≡ []
  unfolding await_pods launch_job
  launching-scale_targets (ok wt) s3 c = ground arith
  launching-scale_targets (err e) s3 c = ground arith

  pub scaling_up-scale_targets :
      (c : S)
      → let w = (reconcile_scaling_up client restore db (start c)).1 in
        (scale_targets w.sent ≡ []) ⊎ (scale_targets w.sent ≡ some (scale_back_target restore) ∷ [])
  unfolding reconcile_scaling_up
  scaling_up-scale_targets c = ground arith
