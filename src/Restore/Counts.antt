-- ===== src/Restore/Counts.antt =====
-- The replica counts that a restore writes over many reconciles.
use sqlite_operator.Base.{
  ◌≡◌, ◌⊎◌, ◌∙◌, inl, inr, ap, Bool, true, false, Option, none, some, or_default, List, [], ◌∷◌,
  ◌++◌, ℤ, pos, arith, Option-cases,
}
use sqlite_operator.Kube.Errors.{ok}
use sqlite_operator.Kube.Client.{Client, start, WorkloadTarget}
use sqlite_operator.Workload.{desired_replicas, target_for_restore}
use sqlite_operator.Api.Replica.{LitestreamReplica}
use sqlite_operator.Api.Restore.{
  RestorePhase, no_phase, pending, pausing, LitestreamRestore, LitestreamRestoreStatus,
}
use sqlite_operator.Restore.Status.{fail_restore}
use sqlite_operator.Restore.Phases.{pause_with, record_replicas, reconcile_pending}
use sqlite_operator.Restore.Reconcile.{
  active_destination, source_key, dispatch, with_destination, with_source, reconcile_restore,
}
use sqlite_operator.Restore.Trace.{written_status, scale_targets, writes_of}
use sqlite_operator.Restore.Life.{writes_of-Keeps}
use sqlite_operator.Restore.Scaling.{
  Scales, not_at_all, down, back_on_failure, back_at_end, writes_of-Scales,
}

-- The workload is scaled to 0 or to this count, in each of the writes.
pub data AreCounts (n : ℤ) : List (Option ℤ) → Type 0 where
  none_left : AreCounts n []
  to_zero : (ts : List (Option ℤ)) → AreCounts n ts → AreCounts n (some (pos 0) ∷ ts)
  to_count : (ts : List (Option ℤ)) → AreCounts n ts → AreCounts n (some n ∷ ts)

AreCounts-append :
    {n : ℤ} (xs ys : List (Option ℤ)) → AreCounts n xs → AreCounts n ys → AreCounts n (xs ++ ys)
AreCounts-append _ ys none_left b = b
AreCounts-append _ ys (to_zero ts a) b = to_zero (ts ++ ys) (AreCounts-append ts ys a b)
AreCounts-append _ ys (to_count ts a) b = to_count (ts ++ ys) (AreCounts-append ts ys a b)

module _ {S : Type 0} (client : Client S) where
  -- The restore behind a reconcile, whose patch of the status was accepted or was lost.
  abbrev pub behind : LitestreamRestore → S × Bool → LitestreamRestore
  behind restore (c, false) = restore
  behind restore (c, true) = record restore {
    status = or_default (written_status (writes_of client restore c)) restore.status;
  }

  -- The counts that reconciles write to the workload, at clusters in turn.
  abbrev pub counts_over : LitestreamRestore → List (S × Bool) → List (Option ℤ)
  counts_over restore [] = []
  counts_over restore (turn ∷ turns) =
      scale_targets (writes_of client restore turn.0) ++ counts_over (behind restore turn) turns

  Scales-AreCounts :
      (restore : LitestreamRestore) (c : S) (n : ℤ) (ts : List (Option ℤ)) (p : Option RestorePhase)
      → restore.status.original_replicas ≡ some n
      → Scales client restore c ts p
      → AreCounts n ts
  Scales-AreCounts restore c n ts p o (not_at_all e) = rw e none_left
  Scales-AreCounts restore c n ts p o (down q e s) = rw e (to_zero [] none_left)
  Scales-AreCounts restore c n ts p o (back_on_failure q e f) = rw (e, o) (to_count [] none_left)
  Scales-AreCounts restore c n ts p o (back_at_end q e) = rw (e, o) (to_count [] none_left)

  behind-keeps :
      (restore : LitestreamRestore) (turn : S × Bool) (n : ℤ)
      → restore.status.original_replicas ≡ some n
      → (behind restore turn).status.original_replicas ≡ some n
  behind-keeps restore (c, false) n o = o
  behind-keeps restore (c, true) n o =
      elim (Option-cases (written_status (writes_of client restore c))) [
        | inl e ↦ rw e o
        | inr (s, e) ↦ rw e ((writes_of-Keeps client restore c s e).replicas_kept n o)
      ]

  -- A restore that has recorded a replica count scales the workload to 0 and to this count only,
  -- over any reconciles, whether the patches of its status are accepted or lost.
  pub counts_over-AreCounts :
      (restore : LitestreamRestore) (n : ℤ) (turns : List (S × Bool))
      → restore.status.original_replicas ≡ some n
      → AreCounts n (counts_over restore turns)
  counts_over-AreCounts restore n [] o = none_left
  counts_over-AreCounts restore n (turn ∷ turns) o =
      AreCounts-append _ _
        (Scales-AreCounts restore turn.0 n _ _ o (writes_of-Scales client restore turn.0))
        (counts_over-AreCounts (behind restore turn) n turns (behind-keeps restore turn n o))

  module _ (restore : LitestreamRestore) (c : S) (db : LitestreamReplica) (wt : WorkloadTarget)
      (s : LitestreamRestoreStatus) where
    pending_count :
        restore.status.original_replicas ≡ none
        → target_for_restore client db c ≡ ok wt
        → written_status (reconcile_pending client restore db (start c)).1.sent ≡ some s
        → s.original_replicas ≡ some (desired_replicas wt)
    unfolding reconcile_pending record_replicas pause_with
    pending_count o t w = ground (arith, o, t, w)

    -- What a new restore records: the count that the workload asks for at that time.
    begins_count :
        (restore.status.phase ≡ no_phase) ⊎ (restore.status.phase ≡ pending)
        → restore.status.original_replicas ≡ none
        → client.get_replica (source_key restore) c ≡ ok db
        → target_for_restore client db c ≡ ok wt
        → written_status (writes_of client restore c) ≡ some s
        → s.phase ≡ pausing
        → s.original_replicas ≡ some (desired_replicas wt)
    unfolding reconcile_restore with_source with_destination fail_restore dispatch
    begins_count p o g t w f = elim (Option-cases (active_destination db.spec.backup)) [
      | inl d ↦ ground (arith, p, g, d, w, f)
      | inr (s3, d) ↦ ground (arith, p, g, d, w, f, pending_count o t)
    ]

    -- A restore that enters Pausing at a cluster where the workload is found and asks for no replicas
    -- scales the workload to nothing but 0 from then on, over any reconciles, whether the patches of
    -- its status are accepted or lost.
    pub counts_over_zero :
        (turns : List (S × Bool))
        → (restore.status.phase ≡ no_phase) ⊎ (restore.status.phase ≡ pending)
        → restore.status.original_replicas ≡ none
        → client.get_replica (source_key restore) c ≡ ok db
        → target_for_restore client db c ≡ ok wt
        → desired_replicas wt ≡ pos 0
        → written_status (writes_of client restore c) ≡ some s
        → s.phase ≡ pausing
        → AreCounts (pos 0) (counts_over (record restore { status = s }) turns)
    counts_over_zero turns p o g t z w f =
        counts_over-AreCounts (record restore { status = s }) (pos 0) turns
          (begins_count p o g t w f ∙ ap some z)
