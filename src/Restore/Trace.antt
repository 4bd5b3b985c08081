-- ===== src/Restore/Trace.antt =====
-- What a reconcile of a LitestreamRestore has sent, read off the list of its writes.
use sqlite_operator.Base.{
  Bool, true, false, ◌||◌, ◌≡◌, refl, arith, Option, none, some, List, [], ◌∷◌, ℤ,
}
use sqlite_operator.Kube.Client.{
  Write, patch_replica, patch_restore_status, patch_workload, create_job, start, Client, Outcome,
}
use sqlite_operator.Api.Restore.{RestorePhase, LitestreamRestore, LitestreamRestoreStatus}
use sqlite_operator.Workload.{object}
use sqlite_operator.Restore.Reconcile.{reconcile_restore}

-- The status that was written last, if one was.
abbrev pub written_status : List Write → Option LitestreamRestoreStatus
written_status [] = none
written_status (patch_restore_status old new ∷ ws) = some new.status
written_status (_ ∷ ws) = written_status ws

-- The phase that was written last, if one was.
abbrev pub written_phase : List Write → Option RestorePhase
written_phase [] = none
written_phase (patch_restore_status old new ∷ ws) = some new.status.phase
written_phase (_ ∷ ws) = written_phase ws

abbrev pub phase_of : Option LitestreamRestoreStatus → Option RestorePhase
phase_of none = none
phase_of (some s) = some s.phase

pub written_phase_of : (xs : List Write) → written_phase xs ≡ phase_of (written_status xs)
written_phase_of [] = refl
written_phase_of (x ∷ xs) = ground (arith, written_phase_of xs)

-- The replica counts of the specs that were written, newest first.
abbrev pub scale_targets : List Write → List (Option ℤ)
scale_targets [] = []
scale_targets (patch_workload old new ∷ ws) = (object new).replicas ∷ scale_targets ws
scale_targets (_ ∷ ws) = scale_targets ws

abbrev is_replica_patch : Write → Bool
is_replica_patch (patch_replica _ _) = true
is_replica_patch _ = false

abbrev is_job_creation : Write → Bool
is_job_creation (create_job _) = true
is_job_creation _ = false

-- Whether a write of a kind was sent.
abbrev pub any_write : (Write → Bool) → List Write → Bool
any_write test [] = false
any_write test (w ∷ ws) = test w || any_write test ws

abbrev pub patches_replica : List Write → Bool
patches_replica = any_write is_replica_patch

abbrev pub creates_job : List Write → Bool
creates_job = any_write is_job_creation

module _ {S : Type 0} (client : Client S) where
  -- The writes of one reconcile, and what it returns.
  abbrev pub writes_of : LitestreamRestore → S → List Write
  writes_of restore c = (reconcile_restore client restore (start c)).1.sent

  abbrev pub outcome_of : LitestreamRestore → S → Outcome
  outcome_of restore c = (reconcile_restore client restore (start c)).0
