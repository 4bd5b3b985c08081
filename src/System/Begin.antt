-- ===== src/System/Begin.antt =====
-- A restore that enters Pausing has paused its source.
use sqlite_operator.Base.{
  ◌==◌, ◌≡◌, refl, ap, true, false, arith, ℤ, pos, or_default, Bool-cases, Option-cases, inl, inr,
}
use sqlite_operator.Base.Dict.{index-insert_self}
use sqlite_operator.Kube.Errors.{Result, ok, err, is_not_found}
use sqlite_operator.Kube.Objects.{NamespacedName}
use sqlite_operator.Kube.Client.{send, Client, World, start, WorkloadTarget}
use sqlite_operator.Api.Replica.{LitestreamReplica, S3Destination, annotation_pause}
use sqlite_operator.Api.Restore.{
  RestorePhase, no_phase, pending, unknown, complete, failed, scaling_up, LitestreamRestore,
}
use sqlite_operator.Workload.{desired_replicas}
use sqlite_operator.Restore.Annotations.{inject_enabled, has_annotation, annotate}
use sqlite_operator.Restore.Status.{fail_restore}
use sqlite_operator.Restore.Phases.{
  record_replicas, pause_with, reconcile_pending, reconcile_scaling_up,
}
use sqlite_operator.Restore.Reconcile.{active_destination, dispatch, with_destination, with_source}
use sqlite_operator.Restore.Trace.{written_phase}
use sqlite_operator.System.Store.{is_paused, IsStore}
use sqlite_operator.System.Quiet.{needs_pause}

module _ {S : Type 0} (client : Client S) (restore_key source : NamespacedName)
    (lawful : IsStore client restore_key source) (restore : LitestreamRestore)
    (db : LitestreamReplica) (c : S) (g : client.get_replica source c ≡ ok db) where
  annotate-paused : has_annotation (annotate db annotation_pause) annotation_pause ≡ true
  unfolding has_annotation annotate
  annotate-paused =
      ap (λ v. v == inject_enabled)
        (index-insert_self annotation_pause inject_enabled db.metadata.annotations)

  -- After a step that does not end in a phase that needs the pause, or leaves the source paused.
  abbrev Pauses : RestorePhase → World S → Type 0
  Pauses p w =
      needs_pause (or_default (written_phase w.sent) p) ≡ true
      → is_paused client restore_key source w.cluster ≡ true

  pause_with-Pauses :
      (p : RestorePhase) (n : ℤ)
      → needs_pause p ≡ false
      → Pauses p (pause_with client restore db n (start c)).1
  unfolding pause_with send
  pause_with-Pauses p n u h = elim (Bool-cases (has_annotation db annotation_pause)) [
    | inl a ↦ rw a (lawful.keeps_pause _ _ refl (lawful.keeps_pause _ _ refl (rw g a)))
    | inr f ↦
        let set = lawful.sets_pause db (annotate db annotation_pause) c g annotate-paused in
        grind (arith, set, lawful.keeps_pause)
  ]

  record_replicas-Pauses :
      (p : RestorePhase) (r : Result WorkloadTarget)
      → needs_pause p ≡ false
      → Pauses p (record_replicas client restore db r (start c)).1
  unfolding record_replicas fail_restore needs_pause
  record_replicas-Pauses p (ok wt) u h = pause_with-Pauses p (desired_replicas wt) u h
  record_replicas-Pauses p (err e) u h = elim (Bool-cases (is_not_found e)) [
    | inl f ↦ rw f (pause_with-Pauses p (pos 0) u (rw f at h))
    | inr f ↦ cc (rw f at h)
  ]

  scaling_up-Pauses : Pauses scaling_up (reconcile_scaling_up client restore db (start c)).1
  unfolding reconcile_scaling_up needs_pause
  scaling_up-Pauses h = absurd (ground arith)

  dispatch-Pauses :
      (p : RestorePhase) (s3 : S3Destination)
      → needs_pause p ≡ false
      → Pauses p (dispatch client p restore db s3 (start c)).1
  unfolding dispatch reconcile_pending needs_pause
  dispatch-Pauses no_phase s3 u h = record_replicas-Pauses no_phase _ u h
  dispatch-Pauses pending s3 u h = record_replicas-Pauses pending _ u h
  dispatch-Pauses scaling_up s3 u h = scaling_up-Pauses h
  dispatch-Pauses complete s3 u h = cc
  dispatch-Pauses failed s3 u h = cc
  dispatch-Pauses (unknown x) s3 u h = cc
  dispatch-Pauses _ s3 u h = cc

  -- A reconcile that starts outside the phases that need the pause.
  pub with_source-Pauses :
      needs_pause restore.status.phase ≡ false
      → Pauses restore.status.phase (with_source client restore (ok db) (start c)).1
  unfolding with_source with_destination fail_restore needs_pause
  with_source-Pauses u h = elim (Option-cases (active_destination db.spec.backup)) [
    | inl d ↦ cc (rw d at h)
    | inr (s3, d) ↦ rw d (dispatch-Pauses _ s3 u (rw d at h))
  ]
