-- ===== src/System/Admission.antt =====
-- The pods that a restore brings back start without the archive check.
use sqlite_operator.Base.{
  String, ◌≡◌, ◌≢◌, ◌∙◌, sym, ap, Bool, true, false, not, ◌||◌, none, [], ◌==◌, eq_iff, arith,
  Option-cases, inl, inr,
}
use sqlite_operator.Base.Dict.{index, index-erase, index-insert_self}
use sqlite_operator.Kube.Errors.{Result, ok, err, Result-cases}
use sqlite_operator.Kube.Objects.{NamespacedName}
use sqlite_operator.Kube.Client.{Client, start, Write, patch_replica}
use sqlite_operator.Api.Replica.{
  LitestreamReplica, S3Destination, annotation_pause, annotation_skip_archive_check,
}
use sqlite_operator.Api.Restore.{RestorePhase, LitestreamRestore, scaling_up}
use sqlite_operator.Restore.Annotations.{
  inject_enabled, has_annotation, annotate, unannotate, replica_key, set_skip_archive_check,
}
use sqlite_operator.Restore.Phases.{reconcile_scaling_up}
use sqlite_operator.Restore.Reconcile.{
  active_destination, source_key, dispatch, with_destination, with_source, reconcile_restore,
}
use sqlite_operator.Restore.Status.{fail_restore}
use sqlite_operator.Restore.Trace.{scale_targets, writes_of}
use sqlite_operator.Webhook.Injector.{any_named, archive_check_container_name, startup_containers}
use sqlite_operator.Webhook.Startup.{startup_containers_iff}

-- A patch of a replica that does not take the annotation off which skips the archive check, or any
-- other write.
abbrev pub leaves_skip : Write → Bool
leaves_skip (patch_replica old new) =
    not (has_annotation old annotation_skip_archive_check)
    || has_annotation new annotation_skip_archive_check
leaves_skip _ = true

unannotate-skip :
    (db : LitestreamReplica)
    → has_annotation (unannotate db annotation_pause) annotation_skip_archive_check
      ≡ has_annotation db annotation_skip_archive_check
unfolding has_annotation unannotate
unannotate-skip db =
    ground
      (arith, index-erase annotation_pause annotation_skip_archive_check db.metadata.annotations)

annotate-skip :
    (db : LitestreamReplica)
    → has_annotation (annotate db annotation_skip_archive_check) annotation_skip_archive_check
      ≡ true
unfolding has_annotation annotate
annotate-skip db =
    ap (λ v. v == inject_enabled)
      (index-insert_self annotation_skip_archive_check inject_enabled db.metadata.annotations)

module _ {S : Type 0} (client : Client S) (source : NamespacedName) where
  abbrev skip_answer : Result LitestreamReplica → Bool
  skip_answer (ok db) = has_annotation db annotation_skip_archive_check
  skip_answer (err e) = true

  -- The source has the annotation, if it can be read.
  abbrev pub is_skipping : S → Bool
  is_skipping c = skip_answer (client.get_replica source c)

  -- Patches of a replica are merged into the object that is stored, and other writes leave it as it is.
  pub record KeepsSkip : Type 0 where
    pub keeps_skip :
        (x : Write) (c : S)
        → leaves_skip x ≡ true
        → is_skipping c ≡ true
        → is_skipping (client.send x c).1 ≡ true
    pub sets_skip :
        (old new : LitestreamReplica) (c : S)
        → client.get_replica source c ≡ ok old
        → has_annotation new annotation_skip_archive_check ≡ true
        → (client.send (patch_replica old new) c).0 ≡ none
        → is_skipping (client.send (patch_replica old new) c).1 ≡ true

  module _ (lawful : KeepsSkip) (restore : LitestreamRestore) (db : LitestreamReplica)
      (named : replica_key db ≡ source) (c : S) where
    set_skip-is_skipping :
        (set_skip_archive_check client db true (start c)).0 ≡ none
        → is_skipping (set_skip_archive_check client db true (start c)).1.cluster ≡ true
    unfolding set_skip_archive_check
    set_skip-is_skipping e = elim (Result-cases (client.get_replica source c)) [
      | inl (latest, g) ↦
          let set =
            lawful.sets_skip latest (annotate latest annotation_skip_archive_check) c g
              (annotate-skip latest) in
          ground (arith, named, g, e, set)
      | inr (x, g) ↦ ground (arith, named, g, e)
    ]

    scaling_up-is_skipping :
        scale_targets (reconcile_scaling_up client restore db (start c)).1.sent ≢ []
        → is_skipping (reconcile_scaling_up client restore db (start c)).1.cluster ≡ true
    unfolding reconcile_scaling_up
    scaling_up-is_skipping n =
        grind (arith, set_skip-is_skipping, lawful.keeps_skip, unannotate-skip)

    dispatch-is_skipping :
        (s3 : S3Destination) (p : RestorePhase)
        → p ≡ scaling_up
        → scale_targets (dispatch client p restore db s3 (start c)).1.sent ≢ []
        → is_skipping (dispatch client p restore db s3 (start c)).1.cluster ≡ true
    unfolding dispatch
    dispatch-is_skipping s3 scaling_up e n = scaling_up-is_skipping n
    dispatch-is_skipping s3 _ e n = cc e

    restored-is_skipping :
        restore.status.phase ≡ scaling_up
        → client.get_replica (source_key restore) c ≡ ok db
        → scale_targets (writes_of client restore c) ≢ []
        → is_skipping (reconcile_restore client restore (start c)).1.cluster ≡ true
    unfolding reconcile_restore with_source with_destination fail_restore
    restored-is_skipping p g n = elim (Option-cases (active_destination db.spec.backup)) [
      | inl d ↦ ground (arith, p, g, d, n)
      | inr (s3, d) ↦ ground (arith, p, g, d, n, dispatch-is_skipping s3 restore.status.phase p)
    ]

    -- On a server that keeps the laws of KeepsSkip: where a reconcile in ScalingUp scales the workload,
    -- the webhook puts no archive check into a pod for the source as it can be read behind it.
    pub scaling_up-admits :
        (latest : LitestreamReplica) (volume : String)
        → restore.status.phase ≡ scaling_up
        → client.get_replica (source_key restore) c ≡ ok db
        → scale_targets (writes_of client restore c) ≢ []
        → client.get_replica source (reconcile_restore client restore (start c)).1.cluster
          ≡ ok latest
        → any_named archive_check_container_name (startup_containers latest volume) ≡ false
    unfolding has_annotation
    scaling_up-admits latest volume p g n l =
        let skipping : has_annotation latest annotation_skip_archive_check ≡ true =
          ap skip_answer (sym l) ∙ restored-is_skipping p g n in
        ground (
          arith,
          skipping,
          startup_containers_iff latest volume,
          eq_iff (index latest.metadata.annotations annotation_skip_archive_check) "true",
        )
