-- ===== src/Replica/Readiness.antt =====
-- What updateStatus writes.
use sqlite_operator.Base.{
  ℕ, String, ◌≡◌, ◌≢◌, ◌↔◌, refl, Bool, true, false, Option, none, some, List, [], ◌∷◌, arith,
  exceeds, Bool-cases, ap, ◌&&◌, inl, inr,
}
use sqlite_operator.Kube.Errors.{Result, ok, err}
use sqlite_operator.Kube.Client.{Client, World, start, WorkloadTarget, Write, patch_replica_status}
use sqlite_operator.Api.Replica.{
  LitestreamReplica, LitestreamReplicaStatus, annotation_pause, ready, ready_phase, true_status,
}
use sqlite_operator.Workload.{desired_replicas, ready_replicas, target_workload}
use sqlite_operator.Restore.Annotations.{has_annotation}
use sqlite_operator.Replica.Conditions.{rank, ConditionStore, IsLawful, status_of}
use sqlite_operator.Replica.Pods.{archive_check_state}
use sqlite_operator.Replica.Status.{
  is_marked, absent_status, exceeded_status, archive_failed_status, final_status,
  with_archive_check, with_target, update_status,
}

-- The status of a LitestreamReplica that was written last, if one was.
abbrev pub written_replica_status : List Write → Option LitestreamReplicaStatus
written_replica_status [] = none
written_replica_status (patch_replica_status old new ∷ ws) = some new.status
written_replica_status (_ ∷ ws) = written_replica_status ws

module _ {S : Type 0} (client : Client S) (store : ConditionStore) (db : LitestreamReplica)
    (c : S) where
  -- The object serves: a workload of one replica at most that is ready and marked for injection,
  -- without a pause and without a failed archive check.
  pub record Serves : Type 0 where
    pub target : WorkloadTarget
    pub found : target_workload client db c ≡ ok target
    pub single : exceeds (desired_replicas target) 1 ≡ false
    pub checked : (archive_check_state client db target c).0 ≡ false
    pub active : has_annotation db annotation_pause ≡ false
    pub marked : is_marked target ≡ true
    pub live : exceeds (ready_replicas target) 0 ≡ true

  -- What a status says of readiness.
  pub record Reports (s : LitestreamReplicaStatus) : Type 0 where
    pub ready_iff : (s.ready ≡ true) ↔ Serves
    pub phase_iff : (s.phase ≡ ready_phase) ↔ Serves
    pub condition : s.ready ≡ true → status_of ready s.conditions ≡ some true_status

  -- The status that a world was written.
  abbrev pub WritesReport : World S → Type 0
  WritesReport w =
      (s : LitestreamReplicaStatus) × (written_replica_status w.sent ≡ some s) × Reports s

  unready :
      (s : LitestreamReplicaStatus)
      → s.ready ≡ false
      → s.phase ≢ ready_phase
      → (Serves → ⊥)
      → Reports s
  unready s r p n = record {
    ready_iff = (λ h. cc, λ h. absurd (n h));
    phase_iff = (λ h. absurd (p h), λ h. absurd (n h));
    condition = λ h. cc;
  }

  serving :
      (s : LitestreamReplicaStatus)
      → s.ready ≡ true
      → s.phase ≡ ready_phase
      → status_of ready s.conditions ≡ some true_status
      → Serves
      → Reports s
  serving s r p t v = record {
    ready_iff = (λ h. v, λ h. r);
    phase_iff = (λ h. v, λ h. p);
    condition = λ h. t;
  }

  served :
      (wt : WorkloadTarget)
      → target_workload client db c ≡ ok wt
      → exceeds (desired_replicas wt) 1 ≡ false
      → (archive_check_state client db wt c).0 ≡ false
      → has_annotation db annotation_pause ≡ false
      → (is_marked wt && exceeds (ready_replicas wt) 0) ≡ true
      → Serves
  served wt g n a p t = record {
    target = wt;
    found = g;
    single = n;
    checked = a;
    active = p;
    marked = ground arith;
    live = ground arith;
  }

  final_status-Reports :
      (now : ℕ) (wt : WorkloadTarget) (s : LitestreamReplicaStatus)
      → target_workload client db c ≡ ok wt
      → exceeds (desired_replicas wt) 1 ≡ false
      → (archive_check_state client db wt c).0 ≡ false
      → IsLawful store
      → Reports (final_status store db now wt s)
  unfolding final_status rank
  final_status-Reports now wt s g n a l = elim (Bool-cases (has_annotation db annotation_pause)) [
    | inl p ↦ rw p (unready _ refl (λ h. cc) (λ h. cc (h.active, p)))
    | inr p ↦ elim (Bool-cases (is_marked wt && exceeds (ready_replicas wt) 0)) [
      | inl t ↦ rw (p, t) (serving _ refl refl (l.sets ready _ _) (served wt g n a p t))
      | inr f ↦ rw (p, f) (unready _ refl (λ h. cc) (λ h. cc (h.found, h.marked, h.live, g, f)))
    ]
  ]

  with_archive_check-WritesReport :
      (now : ℕ) (wt : WorkloadTarget) (a : Bool × String)
      → target_workload client db c ≡ ok wt
      → exceeds (desired_replicas wt) 1 ≡ false
      → archive_check_state client db wt c ≡ a
      → IsLawful store
      → WritesReport (with_archive_check client store db now wt a (start c)).1
  unfolding with_archive_check archive_failed_status
  with_archive_check-WritesReport now wt (true, msg) g n a l =
      (_, refl, unready _ refl (λ h. cc) (λ h. cc (h.found, h.checked, g, ap (λ x. x.0) a)))
  with_archive_check-WritesReport now wt (false, msg) g n a l =
      (_, refl, final_status-Reports now wt _ g n (ap (λ x. x.0) a) l)

  with_target-WritesReport :
      (now : ℕ) (r : Result WorkloadTarget)
      → target_workload client db c ≡ r
      → IsLawful store
      → WritesReport (with_target client store db now r (start c)).1
  unfolding with_target absent_status exceeded_status
  with_target-WritesReport now (err e) g l =
      (_, refl, unready _ refl (λ h. cc) (λ h. cc (h.found, g)))
  with_target-WritesReport now (ok wt) g l = elim (Bool-cases (exceeds (desired_replicas wt) 1)) [
    | inl t ↦ rw t (_, refl, unready _ refl (λ h. cc) (λ h. cc (h.found, h.single, g, t)))
    | inr f ↦ rw f (with_archive_check-WritesReport now wt _ g f refl l)
  ]

  -- With a lawful store of conditions, a status is always written; it says ready, and the phase
  -- Ready, exactly where the object serves: its workload is found, has at most one replica, carries
  -- the annotation for injection and has a ready replica, no archive check has failed, and there is
  -- no pause. A status that says ready has a Ready condition that is true.
  pub update_status-Reports :
      IsLawful store → WritesReport (update_status client store db (start c)).1
  unfolding update_status
  update_status-Reports l = with_target-WritesReport _ (target_workload client db c) refl l

  -- Where the workload has more than one replica, the status that is written says not ready, and the
  -- Ready condition in it is the one that was there before.
  update_status_exceeded :
      (wt : WorkloadTarget)
      → IsLawful store
      → target_workload client db c ≡ ok wt
      → exceeds (desired_replicas wt) 1 ≡ true
      → (s : LitestreamReplicaStatus) × (written_replica_status
            (update_status client store db (start c)).1.sent
          ≡ some s)
        × (s.ready ≡ false)
        × (status_of ready s.conditions ≡ status_of ready db.status.conditions)
  unfolding update_status with_target exceeded_status rank
  update_status_exceeded wt l g t = rw (g, t) (_, refl, refl, l.sets ready _ _)
