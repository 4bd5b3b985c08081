-- ===== src/Restore/Life.antt =====
-- The life of a LitestreamRestore: reconciles at any states of the cluster, with edits of its
-- specification between them.
use sqlite_operator.Base.{
  ℕ, String, ◌<>◌, ◌≡◌, ◌≢◌, Bool, true, false, none, some, List, [], ◌∷◌, arith, ℤ, is_some,
}
use sqlite_operator.Kube.Objects.{ObjectMeta}
use sqlite_operator.Kube.Client.{Client}
use sqlite_operator.Api.Restore.{
  RestorePhase, no_phase, pausing, scaling_down, running, validating, scaling_up, complete, failed,
  LitestreamRestore, LitestreamRestoreSpec, LitestreamRestoreStatus,
}
use sqlite_operator.Restore.Reconcile.{is_terminal}
use sqlite_operator.Restore.Machine.{
  StatusStep, begin, drain, launch, validate, return, finish, give_up, roll_back,
}
use sqlite_operator.Restore.Trace.{written_status, writes_of}
use sqlite_operator.Restore.Refinement.{writes_of-StatusStep}

-- The status of a new object.
abbrev pub new_status : LitestreamRestoreStatus
new_status = record {
  phase = no_phase;
  job_name = "";
  original_replicas = none;
  start_time = none;
  completion_time = none;
  message = "";
}

-- What a restore can become, with the phases that were written to it, newest first.
pub data Life {S : Type 0} (client : Client S) (metadata : ObjectMeta)
    : LitestreamRestore → List RestorePhase → Type 0 where
  created :
      (spec : LitestreamRestoreSpec)
      → Life client metadata (record { metadata = metadata; spec = spec; status = new_status }) []
  edited :
      {restore : LitestreamRestore} {h : List RestorePhase}
      → Life client metadata restore h
      → (spec : LitestreamRestoreSpec) → Life client metadata (record restore { spec = spec }) h
  reconciled :
      {restore : LitestreamRestore} {h : List RestorePhase}
      → Life client metadata restore h
      → (c : S) (s : LitestreamRestoreStatus) → written_status (writes_of client restore c) ≡ some s
      → Life client metadata (record restore { status = s }) (s.phase ∷ h)

-- The phases of a restore that has not failed.
abbrev pub trail : RestorePhase → List RestorePhase
trail pausing = pausing ∷ []
trail scaling_down = scaling_down ∷ pausing ∷ []
trail running = running ∷ scaling_down ∷ pausing ∷ []
trail validating = validating ∷ running ∷ scaling_down ∷ pausing ∷ []
trail scaling_up = scaling_up ∷ validating ∷ running ∷ scaling_down ∷ pausing ∷ []
trail complete = complete ∷ scaling_up ∷ validating ∷ running ∷ scaling_down ∷ pausing ∷ []
trail _ = []

-- Between the pause and the end: the phases that know how to scale back.
abbrev pub is_underway : RestorePhase → Bool
is_underway pausing = true
is_underway scaling_down = true
is_underway running = true
is_underway validating = true
is_underway scaling_up = true
is_underway complete = true
is_underway _ = false

-- The phases in which the restore Job has been created.
abbrev pub is_launched : RestorePhase → Bool
is_launched running = true
is_launched validating = true
is_launched scaling_up = true
is_launched complete = true
is_launched _ = false

pub record IsWellFormed (metadata : ObjectMeta) (restore : LitestreamRestore)
    (h : List RestorePhase) : Type 0 where
  pub same_object : restore.metadata ≡ metadata
  pub history : restore.status.phase ≢ failed → h ≡ trail restore.status.phase
  pub replicas_known :
      is_underway restore.status.phase ≡ true → is_some restore.status.original_replicas ≡ true
  pub start_known :
      is_underway restore.status.phase ≡ true → is_some restore.status.start_time ≡ true
  pub end_known : is_some restore.status.completion_time ≡ is_terminal restore.status.phase
  pub job_known :
      is_launched restore.status.phase ≡ true
      → restore.status.job_name ≡ restore.metadata.name <> "-restore"

StatusStep-IsWellFormed :
    (m : ObjectMeta) (restore : LitestreamRestore) (h : List RestorePhase)
    (s : LitestreamRestoreStatus)
    → IsWellFormed m restore h
    → StatusStep restore.metadata.name restore.status s
    → IsWellFormed m (record restore { status = s }) (s.phase ∷ h)
StatusStep-IsWellFormed m restore h s i (begin p a b e) = ground arith
StatusStep-IsWellFormed m restore h s i (drain p e) = ground arith
StatusStep-IsWellFormed m restore h s i (launch p a e) = ground arith
StatusStep-IsWellFormed m restore h s i (validate p e) = ground arith
StatusStep-IsWellFormed m restore h s i (return p e) = ground arith
StatusStep-IsWellFormed m restore h s i (finish p a e) = ground arith
StatusStep-IsWellFormed m restore h s i (give_up p a b e) = ground arith
StatusStep-IsWellFormed m restore h s i (roll_back p a e) = ground arith

-- A restore in its life knows its replica count and start time from the pause on, has a completion
-- time exactly when it has ended, and names its own restore Job from the launch on.
pub Life-IsWellFormed :
    {S : Type 0} (client : Client S) (m : ObjectMeta) {restore : LitestreamRestore}
    {h : List RestorePhase}
    → Life client m restore h
    → IsWellFormed m restore h
Life-IsWellFormed client m (created spec) = ground arith
Life-IsWellFormed client m (edited l spec) = let i = Life-IsWellFormed client m l in ground arith
Life-IsWellFormed client m (reconciled {restore} {h} l c s w) =
    StatusStep-IsWellFormed m restore h s (Life-IsWellFormed client m l)
      (writes_of-StatusStep client restore c s w)

-- A restore that is complete was written the phases Pausing, ScalingDown, Running, Validating,
-- ScalingUp and Complete, each once and in this order, and no other.
pub Life-complete :
    {S : Type 0} (client : Client S) (m : ObjectMeta) {restore : LitestreamRestore}
    {h : List RestorePhase}
    → Life client m restore h
    → restore.status.phase ≡ complete
    → h ≡ complete ∷ scaling_up ∷ validating ∷ running ∷ scaling_down ∷ pausing ∷ []
Life-complete client m {restore} l e =
    let i = (Life-IsWellFormed client m l).history (λ f. cc) in rw e at i

-- What was recorded once stays: the replica count and the start time.
pub record Keeps (old new : LitestreamRestoreStatus) : Type 0 where
  pub replicas_kept : (n : ℤ) → old.original_replicas ≡ some n → new.original_replicas ≡ some n
  pub start_kept : (t : ℕ) → old.start_time ≡ some t → new.start_time ≡ some t

StatusStep-Keeps :
    (name : String) (old new : LitestreamRestoreStatus) → StatusStep name old new → Keeps old new
StatusStep-Keeps name old new (begin p a b e) = ground arith
StatusStep-Keeps name old new (drain p e) = ground arith
StatusStep-Keeps name old new (launch p a e) = ground arith
StatusStep-Keeps name old new (validate p e) = ground arith
StatusStep-Keeps name old new (return p e) = ground arith
StatusStep-Keeps name old new (finish p a e) = ground arith
StatusStep-Keeps name old new (give_up p a b e) = ground arith
StatusStep-Keeps name old new (roll_back p a e) = ground arith

-- A replica count and a start time that a status holds are in every status that a reconcile writes,
-- whatever the client answers.
pub writes_of-Keeps :
    {S : Type 0} (client : Client S) (restore : LitestreamRestore) (c : S)
    (s : LitestreamRestoreStatus)
    → written_status (writes_of client restore c) ≡ some s
    → Keeps restore.status s
writes_of-Keeps client restore c s h =
    StatusStep-Keeps _ _ _ (writes_of-StatusStep client restore c s h)
