-- ===== src/System/Replay/Statuses.antt =====
-- What every harmless write keeps, the end of a reconcile of a replica keeps.
use sqlite_operator.Base.{
  ◌∷◌, ℕ, String, ◌≡◌, refl, Bool, true, false, arith, exceeds, Bool-cases, inl, inr, ◌&&◌,
}
use sqlite_operator.Base.Dict.{Dict, index-erase}
use sqlite_operator.Kube.Errors.{Result, ok, err}
use sqlite_operator.Kube.Client.{Client, World, Write, send, WorkloadTarget}
use sqlite_operator.Kube.Objects.{NamespacedName}
use sqlite_operator.Workload.{desired_replicas}
use sqlite_operator.Api.Replica.{
  LitestreamReplica, LitestreamReplicaStatus, annotation_pause, annotation_skip_archive_check,
}
use sqlite_operator.Restore.Annotations.{has_annotation, unannotate, replica_key}
use sqlite_operator.Replica.Conditions.{ConditionStore}
use sqlite_operator.Replica.Pods.{litestream_container_state}
use sqlite_operator.Replica.Status.{
  clear_skip_archive_check, clear_latest, patch_status, announce, clear_if_healthy, judge_health,
  with_archive_check, with_target, update_status,
}
use sqlite_operator.System.Replay.{is_harmless}

skip-pause :
    (db : LitestreamReplica)
    → has_annotation (unannotate db annotation_skip_archive_check) annotation_pause
      ≡ has_annotation db annotation_pause
unfolding has_annotation unannotate
skip-pause db =
    ground
      (arith, index-erase annotation_skip_archive_check annotation_pause db.metadata.annotations)

-- The world behind a write.
abbrev pub written : {S : Type 0} → Client S → Write → World S → World S
written client x w = record { cluster = (client.send x w.cluster).1; sent = x ∷ w.sent }

-- What every harmless write keeps, the report of the status keeps.
module _ {S : Type 0} (client : Client S) (I : World S → Type 0)
    (fits : NamespacedName → Dict → Bool)
    (keeps : (x : Write) (w : World S)
      → is_harmless fits x ≡ true
      → I w
      → I (written client x w)) where
  clear_latest-keeps :
      (r : Result LitestreamReplica) (w : World S) → I w → I (clear_latest client r w).1
  unfolding send
  clear_latest-keeps (err e) w i = i
  clear_latest-keeps (ok latest) w i =
      elim (Bool-cases (has_annotation latest annotation_skip_archive_check)) [
        | inl f ↦ rw f (keeps _ w (ground (arith, skip-pause latest)) i)
        | inr f ↦ rw f i
      ]

  module _ (store : ConditionStore) (db : LitestreamReplica) where
    announce-keeps : (h : Bool × String) (w : World S) → I w → I (announce client store db h w).1
    unfolding announce
    announce-keeps (true, m) w i = elim (Bool-cases (db.status.backup_healthy)) [
      | inl e ↦ rw e (i)
      | inr e ↦ rw e (keeps _ w refl i)
    ]
    announce-keeps (false, m) w i = elim (Bool-cases (db.status.backup_healthy)) [
      | inl e ↦ rw e (keeps _ w refl i)
      | inr e ↦ rw e (i)
    ]

    clear_if_healthy-keeps :
        (b : Bool) (w : World S) → I w → I (clear_if_healthy client store db b w).1
    unfolding clear_if_healthy clear_skip_archive_check
    clear_if_healthy-keeps b w i =
        elim (Bool-cases (b && has_annotation db annotation_skip_archive_check)) [
          | inl e ↦ rw e (clear_latest-keeps (client.get_replica (replica_key db) w.cluster) w i)
          | inr e ↦ rw e (i)
        ]

    judge_health-keeps :
        (now : ℕ) (wt : WorkloadTarget) (s : LitestreamReplicaStatus) (w : World S)
        → I w
        → I (judge_health client store db now wt s w).1
    unfolding judge_health
    judge_health-keeps now wt s w i =
        let health = litestream_container_state client db wt w.cluster in
        ground (
          arith,
          i,
          clear_if_healthy-keeps health.0 (announce client store db health w).1
              (announce-keeps health w i),
        )

    patch_status-keeps :
        (s : LitestreamReplicaStatus) (w : World S) → I w → I (patch_status client db s w).1
    unfolding patch_status
    patch_status-keeps s w i = keeps _ w refl i

    with_archive_check-keeps :
        (now : ℕ) (wt : WorkloadTarget) (a : Bool × String) (w : World S)
        → I w
        → I (with_archive_check client store db now wt a w).1
    unfolding with_archive_check
    with_archive_check-keeps now wt (true, m) w i = patch_status-keeps _ w i
    with_archive_check-keeps now wt (false, m) w i =
        patch_status-keeps _ _ (judge_health-keeps now wt _ w i)

    with_target-keeps :
        (now : ℕ) (r : Result WorkloadTarget) (w : World S)
        → I w
        → I (with_target client store db now r w).1
    unfolding with_target
    with_target-keeps now (err e) w i = patch_status-keeps _ w i
    with_target-keeps now (ok wt) w i = elim (Bool-cases (exceeds (desired_replicas wt) 1)) [
      | inl e ↦ rw e (patch_status-keeps _ w i)
      | inr e ↦ rw e (with_archive_check-keeps now wt _ w i)
    ]

    pub update_status-keeps : (w : World S) → I w → I (update_status client store db w).1
    unfolding update_status
    update_status-keeps w i = with_target-keeps _ _ w i
