-- ===== src/Replica/Cycle.antt =====
-- How a reconcile of a LitestreamReplica ends.
use sqlite_operator.Base.{
  ℕ, String, ◌≡◌, refl, Bool, true, false, Option, none, some, arith, is_some, exceeds, Bool-cases,
  inl, inr,
}
use sqlite_operator.Kube.Errors.{Err, Result, ok, err}
use sqlite_operator.Kube.Client.{Client, World, WorkloadTarget, Outcome}
use sqlite_operator.Api.Replica.{LitestreamReplica}
use sqlite_operator.Workload.{desired_replicas}
use sqlite_operator.Replica.Conditions.{ConditionStore}
use sqlite_operator.Replica.Status.{with_archive_check, with_target, update_status}
use sqlite_operator.Replica.Reconcile.{after_init_sql, reconcile_replica}
use sqlite_operator.Replica.Readiness.{written_replica_status}

-- A cycle ended without an error, with a status that was written, and the next one in two minutes.
abbrev pub Completes : {S : Type 0} → Outcome × World S → Type 0
Completes (o, w) =
    o.error ≡ none → (o.requeue_after ≡ 120) × (is_some (written_replica_status w.sent) ≡ true)

module _ {S : Type 0} (client : Client S) (store : ConditionStore) where
  with_archive_check-is_some :
      (db : LitestreamReplica) (now : ℕ) (wt : WorkloadTarget) (a : Bool × String) (w : World S)
      → is_some (written_replica_status (with_archive_check client store db now wt a w).1.sent)
        ≡ true
  unfolding with_archive_check
  with_archive_check-is_some db now wt (true, m) w = refl
  with_archive_check-is_some db now wt (false, m) w = refl

  with_target-is_some :
      (db : LitestreamReplica) (now : ℕ) (r : Result WorkloadTarget) (w : World S)
      → is_some (written_replica_status (with_target client store db now r w).1.sent) ≡ true
  unfolding with_target
  with_target-is_some db now (err e) w = refl
  with_target-is_some db now (ok wt) w = elim (Bool-cases (exceeds (desired_replicas wt) 1)) [
    | inl t ↦ rw t refl
    | inr f ↦ rw f (with_archive_check-is_some db now wt _ w)
  ]

  update_status-is_some :
      (db : LitestreamReplica) (w : World S)
      → is_some (written_replica_status (update_status client store db w).1.sent) ≡ true
  unfolding update_status
  update_status-is_some db w = with_target-is_some db _ _ w

  after_init_sql-Completes :
      (hash : String → String) (r : Option Err × LitestreamReplica) (w : World S)
      → Completes (after_init_sql client store hash r w)
  after_init_sql-Completes hash (some e, db) w = λ h. cc h
  after_init_sql-Completes hash (none, db) w = grind (arith, update_status-is_some)

  -- A reconcile of a LitestreamReplica that returns no error has written a status, and asks to come
  -- back in two minutes.
  pub reconcile_replica-Completes :
      (hash : String → String) (db : LitestreamReplica) (w : World S)
      → Completes (reconcile_replica client store hash db w)
  unfolding reconcile_replica
  reconcile_replica-Completes hash db w = grind (arith, after_init_sql-Completes)
