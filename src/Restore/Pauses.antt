-- ===== src/Restore/Pauses.antt =====
-- What the pause, its end and the skipped archive check do to the LitestreamReplica.
use text.Mathlib.TextPositions.{eq_refl}
use sqlite_operator.Base.{
  String, ◌≡◌, ◌≢◌, ◌⊎◌, inl, inr, refl, Bool, true, false, List, [], ◌∷◌, ◌==◌, arith, eq_iff,
  Bool-cases, ap,
}
use sqlite_operator.Base.Dict.{index, erase, index-insert_self, index-insert, index-erase}
use sqlite_operator.Kube.Errors.{ok}
use sqlite_operator.Kube.Client.{Client, start, Write, patch_replica}
use sqlite_operator.Api.Replica.{LitestreamReplica, annotation_pause, annotation_skip_archive_check}
use sqlite_operator.Restore.Annotations.{
  inject_enabled, has_annotation, annotate, unannotate, replica_key, pause_replication,
  resume_replication, set_skip_archive_check,
}

-- A change of one annotation: it is set to "true" or not, and nothing else is changed.
pub record Switches (k : String) (on : Bool) (old new : LitestreamReplica) : Type 0 where
  pub switched : has_annotation new k ≡ on
  pub others_kept :
      (j : String) → j ≢ k → index new.metadata.annotations j ≡ index old.metadata.annotations j
  pub same_name : replica_key new ≡ replica_key old
  pub same_spec : new.spec ≡ old.spec
  pub same_status : new.status ≡ old.status

-- The writes of such a change to an object: none where it is as wanted already.
abbrev pub Changes : String → Bool → LitestreamReplica → List Write → Type 0
Changes k on old ws =
    ((has_annotation old k ≡ on) × (ws ≡ []))
    ⊎ ((new : LitestreamReplica) × (ws ≡ patch_replica old new ∷ []) × Switches k on old new)

annotate-Switches : (db : LitestreamReplica) (k : String) → Switches k true db (annotate db k)
unfolding annotate has_annotation
annotate-Switches db k = record {
  switched =
      ap (λ v. v == inject_enabled) (index-insert_self k inject_enabled db.metadata.annotations);
  others_kept =
      λ j. λ n. ground (arith, index-insert k j inject_enabled db.metadata.annotations, eq_iff k j);
  same_name = refl;
  same_spec = refl;
  same_status = refl;
}

unannotate-Switches : (db : LitestreamReplica) (k : String) → Switches k false db (unannotate db k)
unfolding unannotate has_annotation
unannotate-Switches db k = record {
  switched =
      let gone : index (erase k db.metadata.annotations) k ≡ "" = simp (index-erase, eq_refl) in
      ap (λ v. v == inject_enabled) gone;
  others_kept = λ j. λ n. ground (arith, index-erase k j db.metadata.annotations, eq_iff k j);
  same_name = refl;
  same_spec = refl;
  same_status = refl;
}

module _ {S : Type 0} (client : Client S) (db : LitestreamReplica) (c : S) where
  -- The pause sets its annotation on the object that was fetched before, where it is not "true" yet,
  -- and leaves the rest of the object as it is.
  pause_replication-Changes :
      Changes annotation_pause true db (pause_replication client db (start c)).1.sent
  unfolding pause_replication
  pause_replication-Changes = elim (Bool-cases (has_annotation db annotation_pause)) [
    | inl t ↦ rw t (inl (refl, refl))
    | inr f ↦ rw f (inr (_, refl, annotate-Switches db annotation_pause))
  ]

  -- Where the latest object is found, the annotation that skips the archive check is set on it, or
  -- taken off it, as asked, where it is not so yet; the rest of the object stays as it is.
  set_skip_archive_check-Changes :
      (enable : Bool) (latest : LitestreamReplica)
      → client.get_replica (replica_key db) c ≡ ok latest
      → Changes annotation_skip_archive_check enable latest
          (set_skip_archive_check client db enable (start c)).1.sent
  unfolding set_skip_archive_check
  set_skip_archive_check-Changes true latest g =
      elim (Bool-cases (has_annotation latest annotation_skip_archive_check)) [
        | inl t ↦ rw (g, t) (inl (refl, refl))
        | inr f ↦ rw (g, f) (inr (_, refl, annotate-Switches latest annotation_skip_archive_check))
      ]
  set_skip_archive_check-Changes false latest g =
      elim (Bool-cases (has_annotation latest annotation_skip_archive_check)) [
        | inl t ↦
            rw (g, t) (inr (_, refl, unannotate-Switches latest annotation_skip_archive_check))
        | inr f ↦ rw (g, f) (inl (refl, refl))
      ]

  -- The end of the pause takes the annotation off the latest object, and leaves the rest of it as it
  -- is, where the object that was fetched before is paused; otherwise nothing is sent.
  resume_replication-Switches :
      (latest : LitestreamReplica)
      → client.get_replica (replica_key db) c ≡ ok latest
      → ((has_annotation db annotation_pause ≡ false)
          × ((resume_replication client db (start c)).1.sent ≡ []))
        ⊎ ((has_annotation db annotation_pause ≡ true)
            × (new : LitestreamReplica) × ((resume_replication client db (start c)).1.sent
                ≡ patch_replica latest new ∷ [])
            × Switches annotation_pause false latest new)
  unfolding resume_replication
  resume_replication-Switches latest g = elim (Bool-cases (has_annotation db annotation_pause)) [
    | inl t ↦ rw (t, g) (inr (refl, _, refl, unannotate-Switches latest annotation_pause))
    | inr f ↦ rw f (inl (refl, refl))
  ]
