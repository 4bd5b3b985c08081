-- ===== src/System/Handshake.antt =====
-- How the restore controller and the replica controller answer each other.
use sqlite_operator.Base.{String, ◌≡◌, ◌∙◌, sym, ap, refl, true, false, some, Bool-cases, inl, inr}
use mathlib.Core.Path.{subst}
use sqlite_operator.Kube.Errors.{ok}
use sqlite_operator.Kube.Objects.{NamespacedName}
use sqlite_operator.Kube.Client.{Client, start, patch_replica}
use sqlite_operator.Api.Replica.{
  LitestreamReplica, S3Destination, annotation_pause, annotation_skip_archive_check,
}
use sqlite_operator.Api.Restore.{
  RestorePhase, LitestreamRestore, pausing, scaling_down, scaling_up, complete,
}
use sqlite_operator.Workload.{target_for_restore}
use sqlite_operator.Restore.Annotations.{
  has_annotation, annotate, replica_key, set_skip_archive_check, resume_replication,
}
use sqlite_operator.Restore.Reconcile.{active_destination, source_key}
use sqlite_operator.Restore.Progress.{
  IsCalm, IsOk, IsDecided, HoldsText, Awaits, next, skipping, resumed, writes_of-progress,
}
use sqlite_operator.Restore.Trace.{written_phase, writes_of}
use sqlite_operator.Replica.Conditions.{ConditionStore}
use sqlite_operator.Replica.Reconcile as Replicas
use sqlite_operator.System.Replay.{config_of}
use sqlite_operator.System.Replay.Replicas.{reconcile-IsCareful}
use sqlite_operator.System.Store.{IsStore, is_paused, replay-keeps_pause}
use sqlite_operator.System.Turns.{any_config, paused-annotated}
use sqlite_operator.System.Rendering.{IsServing, Renders, reconcile-Renders}

-- The cluster behind a reconcile of a replica.
abbrev pub answered :
    {S : Type 0} → Client S → NamespacedName → ConditionStore → (String → String) → S → S
answered client source store hash c =
    (Replicas.reconcile client store hash source (start c)).1.cluster

module _ {S : Type 0} (client : Client S) (source : NamespacedName) (calm : IsCalm client)
    (serving : IsServing client source) (store : ConditionStore) (hash : String → String)
    (restore : LitestreamRestore) (named : source_key restore ≡ source) (c : S) where
  abbrev after : S
  after = answered client source store hash c

  module _ (db latest : LitestreamReplica) (s3 : S3Destination)
      (found : client.get_replica source c ≡ ok db)
      (still_found : client.get_replica source after ≡ ok latest)
      (active : active_destination latest.spec.backup ≡ some s3) where
    seen : client.get_replica (source_key restore) after ≡ ok latest
    seen = ap (λ k. client.get_replica k after) named ∙ still_found

    own : config_of (replica_key latest) ≡ config_of source
    own = ap config_of (serving.found_named after latest still_found)

    moves_on :
        (p : RestorePhase)
        → restore.status.phase ≡ p
        → Awaits client restore latest after p
        → written_phase (writes_of client restore after) ≡ some (next p)
    moves_on p e a =
        let awaited = subst (Awaits client restore latest after) (sym e) a in
        writes_of-progress client restore calm latest s3 after seen active awaited
        ∙ ap (λ q. some (next q)) e

    -- On a server that keeps the laws of IsServing and IsStore and fails no write: behind a reconcile
    -- of a source that carries the pause annotation, a restore of it in Pausing writes the phase
    -- ScalingDown at its next reconcile, if the source is still found, with a destination, and its
    -- workload is found or known to be gone.
    pub pausing-answered :
        (restore_key : NamespacedName)
        → IsStore client restore_key source
        → restore.status.phase ≡ pausing
        → has_annotation db annotation_pause ≡ true
        → IsDecided (target_for_restore client latest after)
        → written_phase (writes_of client restore after) ≡ some scaling_down
    pausing-answered restore_key lawful p a d =
        let (led, careful) =
          reconcile-IsCareful client c any_config store hash source (λ db g. (refl, refl)) in
        let kept =
          replay-keeps_pause client restore_key source lawful c any_config
            (Replicas.reconcile client store hash source (start c)).1.sent careful (rw found a) in
        let paused =
          paused-annotated client restore_key source lawful after latest
            (ap (is_paused client restore_key source) led ∙ kept) still_found in
        let text =
          subst (λ b. Renders client source b after) a
            (reconcile-Renders client source calm serving store hash c db found) in
        let held = subst (λ k. HoldsText true (client.get_config_map k after)) (sym own) text in
        moves_on pausing p (paused, held, d)

    -- Behind the patch of ScalingUp, which sets the annotation for the next pod.
    skipping-Renders :
        Renders client source false after
        → IsOk (client.get_replica source (skipping client latest after).cluster)
          × Renders client source false (skipping client latest after).cluster
    unfolding set_skip_archive_check
    skipping-Renders r =
        let there : client.get_replica (replica_key latest) after ≡ ok latest =
          ap (λ k. client.get_replica k after) (serving.found_named after latest still_found)
          ∙ still_found in
        let patch = patch_replica latest (annotate latest annotation_skip_archive_check) in
        elim (Bool-cases (has_annotation latest annotation_skip_archive_check)) [
          | inl t ↦ rw (there, t) (rw still_found tt, r)
          | inr f ↦
              rw (there, f)
                (
                  serving.keeps_source patch after (rw still_found tt),
                  subst (HoldsText false) (sym (serving.keeps_others patch after refl)) r,
                )
        ]

    -- On a server that keeps the laws of IsServing and fails no write: behind a reconcile of a source
    -- without the pause annotation, a restore of it in ScalingUp writes the phase Complete at its next
    -- reconcile, if the source is still found, without the annotation and with a destination.
    pub scaling_up-answered :
        restore.status.phase ≡ scaling_up
        → has_annotation db annotation_pause ≡ false
        → has_annotation latest annotation_pause ≡ false
        → written_phase (writes_of client restore after) ≡ some complete
    unfolding resume_replication
    scaling_up-answered p a b =
        let text =
          subst (λ q. Renders client source q after) a
            (reconcile-Renders client source calm serving store hash c db found) in
        let (ok_behind, held) = skipping-Renders text in
        let key = sym (serving.found_named after latest still_found) in
        moves_on scaling_up p (
          subst (λ k. IsOk (client.get_replica k after)) key (rw still_found tt),
          subst (λ k. IsOk (client.get_replica k (skipping client latest after).cluster)) key
              ok_behind,
          rw (b, resumed)
              (subst
                (λ k.
                  HoldsText false (client.get_config_map k (skipping client latest after).cluster))
                (sym own) held),
        )
