-- ===== src/Replica/Writes.antt =====
-- What else the replica controller writes: the end of the skipped check.
use sqlite_operator.Base.{
  ℕ, String, ◌≡◌, refl, Bool, true, false, arith, exceeds, Bool-cases, inl, inr,
}
use sqlite_operator.Kube.Errors.{Result, ok, err}
use sqlite_operator.Kube.Client.{Client, World, start, WorkloadTarget}
use sqlite_operator.Api.Replica.{
  LitestreamReplica, LitestreamReplicaStatus, annotation_skip_archive_check,
}
use sqlite_operator.Workload.{desired_replicas, target_workload}
use sqlite_operator.Restore.Annotations.{has_annotation}
use sqlite_operator.Restore.Trace.{patches_replica}
use sqlite_operator.Replica.Conditions.{ConditionStore}
use sqlite_operator.Replica.Pods.{litestream_container_state}
use sqlite_operator.Replica.Status.{
  announce, clear_if_healthy, judge_health, with_archive_check, with_target, update_status,
}

module _ {S : Type 0} (client : Client S) (store : ConditionStore) (db : LitestreamReplica) where
  -- What has been seen where the annotation that skips the archive check is taken away.
  pub record SeesHealth (c : S) : Type 0 where
    pub target : WorkloadTarget
    pub found : target_workload client db c ≡ ok target
    pub enabled : db.spec.backup.enabled ≡ true
    pub healthy : (litestream_container_state client db target c).0 ≡ true
    pub skipping : has_annotation db annotation_skip_archive_check ≡ true

  announce-patches_replica :
      (h : Bool × String) (w : World S)
      → patches_replica (announce client store db h w).1.sent ≡ patches_replica w.sent
  unfolding announce
  announce-patches_replica (true, m) w = ground arith
  announce-patches_replica (false, m) w = ground arith

  clear_if_healthy-patches_replica :
      (h : Bool) (w : World S)
      → patches_replica (clear_if_healthy client store db h w).1.sent ≡ true
      → patches_replica w.sent ≡ false
      → (h ≡ true) × (has_annotation db annotation_skip_archive_check ≡ true)
  unfolding clear_if_healthy
  clear_if_healthy-patches_replica h w p q = ground arith

  judge_health-patches_replica :
      (now : ℕ) (wt : WorkloadTarget) (s : LitestreamReplicaStatus) (c : S)
      → patches_replica (judge_health client store db now wt s (start c)).1.sent ≡ true
      → (db.spec.backup.enabled ≡ true)
        × ((litestream_container_state client db wt c).0 ≡ true)
        × (has_annotation db annotation_skip_archive_check ≡ true)
  unfolding judge_health
  judge_health-patches_replica now wt s c p =
      let h = litestream_container_state client db wt c in
      let w = (announce client store db h (start c)).1 in
      ground (arith, clear_if_healthy-patches_replica h.0 w, announce-patches_replica h (start c))

  with_archive_check-patches_replica :
      (now : ℕ) (wt : WorkloadTarget) (a : Bool × String) (c : S)
      → patches_replica (with_archive_check client store db now wt a (start c)).1.sent ≡ true
      → (db.spec.backup.enabled ≡ true)
        × ((litestream_container_state client db wt c).0 ≡ true)
        × (has_annotation db annotation_skip_archive_check ≡ true)
  unfolding with_archive_check
  with_archive_check-patches_replica now wt (true, m) c p = absurd (ground arith)
  with_archive_check-patches_replica now wt (false, m) c p =
      judge_health-patches_replica now wt _ c p

  with_target-patches_replica :
      (now : ℕ) (r : Result WorkloadTarget) (c : S)
      → target_workload client db c ≡ r
      → patches_replica (with_target client store db now r (start c)).1.sent ≡ true
      → SeesHealth c
  unfolding with_target
  with_target-patches_replica now (err e) c g p = absurd (ground arith)
  with_target-patches_replica now (ok wt) c g p =
      elim (Bool-cases (exceeds (desired_replicas wt) 1)) [
        | inl t ↦ absurd (ground arith)
        | inr f ↦
            let (e, h, s) = with_archive_check-patches_replica now wt _ c (rw f at p) in
            record { target = wt; found = g; enabled = e; healthy = h; skipping = s }
      ]

  -- A reconcile of the status patches the LitestreamReplica itself only where its backup is enabled,
  -- the sidecar is healthy, and the annotation that skips the archive check is set.
  pub update_status-patches_replica :
      (c : S)
      → patches_replica (update_status client store db (start c)).1.sent ≡ true
      → SeesHealth c
  unfolding update_status
  update_status-patches_replica c p =
      with_target-patches_replica _ (target_workload client db c) c refl p
