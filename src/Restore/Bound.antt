-- ===== src/Restore/Bound.antt =====
-- How many statuses a restore can still be written.
use sqlite_operator.Base.{ℕ, String, suc, false, ◌+◌, ◌≤◌, ◌<◌, ◌≡◌, some, List, [], ◌∷◌, arith}
use sqlite_operator.Kube.Objects.{ObjectMeta}
use sqlite_operator.Kube.Client.{Client}
use sqlite_operator.Api.Restore.{
  RestorePhase, no_phase, pending, pausing, scaling_down, running, validating, scaling_up, complete,
  failed, unknown, LitestreamRestore, LitestreamRestoreStatus,
}
use sqlite_operator.Restore.Machine.{
  StatusStep, begin, drain, launch, validate, return, finish, give_up, roll_back,
}
use sqlite_operator.Restore.Reconcile.{is_terminal}
use sqlite_operator.Restore.Trace.{written_status, writes_of}
use sqlite_operator.Restore.Refinement.{writes_of-StatusStep}
use sqlite_operator.Restore.Life.{Life, created, edited, reconciled}

-- The statuses that may still follow a phase, at most.
abbrev pub remaining : RestorePhase → ℕ
remaining no_phase = 6
remaining pending = 6
remaining pausing = 5
remaining scaling_down = 4
remaining running = 3
remaining validating = 2
remaining scaling_up = 1
remaining complete = 0
remaining failed = 0
remaining (unknown text) = 1

abbrev pub length {ℓ} : {A : Type ℓ} → List A → ℕ
length [] = 0
length (x ∷ xs) = suc (length xs)

give_up-remaining : (p : RestorePhase) → is_terminal p ≡ false → 0 < remaining p
give_up-remaining complete t = cc t
give_up-remaining failed t = cc t
give_up-remaining _ t = omega arith

StatusStep-remaining :
    (name : String) (old new : LitestreamRestoreStatus)
    → StatusStep name old new
    → remaining new.phase < remaining old.phase
StatusStep-remaining name old new (begin p a b e) = ground arith
StatusStep-remaining name old new (drain p e) = ground arith
StatusStep-remaining name old new (launch p a e) = ground arith
StatusStep-remaining name old new (validate p e) = ground arith
StatusStep-remaining name old new (return p e) = ground arith
StatusStep-remaining name old new (finish p a e) = ground arith
StatusStep-remaining name old new (give_up p a b e) = ground (arith, give_up-remaining old.phase p)
StatusStep-remaining name old new (roll_back p a e) = ground arith

-- Every status that a reconcile writes brings the restore nearer to its end: the number of statuses
-- that may still follow its phase falls.
pub writes_of-remaining :
    {S : Type 0} (client : Client S) (restore : LitestreamRestore) (c : S)
    (s : LitestreamRestoreStatus)
    → written_status (writes_of client restore c) ≡ some s
    → remaining s.phase < remaining restore.status.phase
writes_of-remaining client restore c s h =
    StatusStep-remaining _ _ _ (writes_of-StatusStep client restore c s h)

-- A restore is written six statuses in its life at most: those that were written and those that may
-- follow its phase are together no more.
pub Life-length :
    {S : Type 0} (client : Client S) (m : ObjectMeta) {restore : LitestreamRestore}
    {h : List RestorePhase}
    → Life client m restore h
    → length h + remaining restore.status.phase ≤ 6
Life-length client m (created spec) = omega arith
Life-length client m (edited l spec) = Life-length client m l
Life-length client m (reconciled {restore} {h} l c s w) =
    omega (arith, Life-length client m l, writes_of-remaining client restore c s w)
