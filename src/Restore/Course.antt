-- ===== src/Restore/Course.antt =====
-- The course of a restore: reconciles one after another, in which it waits or moves on.
use sqlite_operator.Base.{
  Option, or_default, ℕ, suc, ◌≤◌, ◌≡◌, ◌≢◌, ◌∙◌, sym, refl, none, some, arith,
}
use sqlite_operator.Kube.Client.{Client}
use sqlite_operator.Api.Replica.{LitestreamReplica, S3Destination}
use sqlite_operator.Api.Restore.{
  RestorePhase, complete, failed, unknown, LitestreamRestore, LitestreamRestoreStatus,
}
use sqlite_operator.Restore.Reconcile.{active_destination, source_key}
use sqlite_operator.Kube.Errors.{ok}
use sqlite_operator.Restore.Trace.{written_status, phase_of, written_phase_of, writes_of}
use sqlite_operator.Restore.Bound.{remaining}
use sqlite_operator.Restore.Progress.{IsCalm, Awaits, next, writes_of-progress}

remaining-complete : (p : RestorePhase) → remaining p ≤ 0 → p ≢ failed → p ≡ complete
remaining-complete complete l n = refl
remaining-complete failed l n = absurd (n refl)
remaining-complete _ l n = absurd (omega (arith, l))

module _ {S : Type 0} (client : Client S) where
  -- At a state the source is found, with a destination, and what the phase waits for holds.
  pub record Helps (restore : LitestreamRestore) (c : S) : Type 0 where
    pub db : LitestreamReplica
    pub s3 : S3Destination
    pub found : client.get_replica (source_key restore) c ≡ ok db
    pub active : active_destination db.spec.backup ≡ some s3
    pub awaited : Awaits client restore db c restore.status.phase

  -- A restore with the status that its reconcile at a state wrote last, if it wrote one.
  abbrev pub reconciled : LitestreamRestore → S → LitestreamRestore
  reconciled restore c = record restore {
    status = or_default (written_status (writes_of client restore c)) restore.status;
  }

  -- The reconciles of a restore at states of the cluster in turn; `n` of them are helped, and the
  -- others write no status.
  pub data Course : LitestreamRestore → ℕ → LitestreamRestore → Type 0 where
    stays : {restore : LitestreamRestore} → Course restore 0 restore
    waits :
        {restore last : LitestreamRestore} {n : ℕ} (c : S)
        → ¬ Helps restore c
        → written_status (writes_of client restore c) ≡ none
        → Course restore n last
        → Course restore n last
    moves :
        {restore last : LitestreamRestore} {n : ℕ} (c : S)
        → Helps restore c
        → Course (reconciled restore c) n last
        → Course restore (suc n) last

  -- A phase that waits for something is followed by one that has one status less to go.
  Awaits-next :
      (restore : LitestreamRestore) (db : LitestreamReplica) (c : S) (p : RestorePhase)
      → Awaits client restore db c p
      → (suc (remaining (next p)) ≡ remaining p) × (next p ≢ failed)
  Awaits-next restore db c complete a = absurd a
  Awaits-next restore db c failed a = absurd a
  Awaits-next restore db c (unknown t) a = absurd a
  Awaits-next restore db c _ a = (refl, λ e. cc e)

  or_default-phase :
      (o : Option LitestreamRestoreStatus) (s : LitestreamRestoreStatus) (p : RestorePhase)
      → phase_of o ≡ some p
      → (or_default o s).phase ≡ p
  or_default-phase none s p e = cc e
  or_default-phase (some t) s p e = cc e

  -- A reconcile that is helped moves the restore on.
  reconciled-next :
      (restore : LitestreamRestore) (c : S)
      → IsCalm client
      → Helps restore c
      → (reconciled restore c).status.phase ≡ next restore.status.phase
  reconciled-next restore c calm h =
      or_default-phase (written_status (writes_of client restore c)) restore.status _ (
        sym (written_phase_of (writes_of client restore c))
        ∙ writes_of-progress client restore calm h.db h.s3 c h.found h.active h.awaited)

  -- Where no write fails and a Job takes an owner, a restore that has not failed is complete at the
  -- end of a course of reconciles, of which at least as many are helped as there are statuses to go,
  -- and the others write no status. A reconcile is helped where the source is found, with a
  -- destination, and what the phase waits for holds.
  pub Course-complete :
      {restore last : LitestreamRestore} {n : ℕ}
      → IsCalm client
      → Course restore n last
      → restore.status.phase ≢ failed
      → remaining restore.status.phase ≤ n
      → last.status.phase ≡ complete
  Course-complete calm stays f l = remaining-complete _ l f
  Course-complete calm (waits c h w k) f l = Course-complete calm k f l
  Course-complete calm (moves {restore} c h k) f l =
      let (one_less, going) = Awaits-next restore h.db c restore.status.phase h.awaited in
      let e = reconciled-next restore c calm h in
      Course-complete calm k (λ x. going (sym e ∙ x)) (rw e (omega (arith, one_less, l)))
