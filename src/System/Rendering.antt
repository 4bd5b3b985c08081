-- ===== src/System/Rendering.antt =====
-- What a reconcile of a replica leaves in its ConfigMap.
use text.Mathlib.TextPositions.{eq_refl}
use mathlib.Core.Path.{subst}
use sqlite_operator.Base.{
  String, ◌≡◌, ◌∙◌, sym, ap, refl, Bool, true, false, not, ◌||◌, ◌==◌, none, arith, Bool-cases, inl,
  inr,
}
use sqlite_operator.Base.Dict.{Dict, index}
use sqlite_operator.Kube.Errors.{Result, ok, err}
use sqlite_operator.Kube.Objects.{NamespacedName, ConfigMap}
use sqlite_operator.Kube.Client.{Client, start, World, Write, create_or_update_config_map, Owner}
use sqlite_operator.Api.Replica.{LitestreamReplica, annotation_pause}
use sqlite_operator.Config.{litestream_config_key, paused_config}
use sqlite_operator.Restore.Annotations.{has_annotation, replica_key}
use sqlite_operator.Restore.Progress.{IsCalm, IsOk, HoldsText}
use sqlite_operator.Replica.Conditions.{ConditionStore}
use sqlite_operator.Replica.ConfigMaps.{owned_key, litestream_config, reconcile_litestream_config}
use sqlite_operator.Replica.Handoff.{litestream_config_pauses}
use sqlite_operator.Replica.InitSql.{HasContent}
use sqlite_operator.Replica.Reconcile as Replicas
use sqlite_operator.System.Configs.{same_key, same_key_iff, init_sql-same_key}
use sqlite_operator.System.Replay.{config_of, is_harmless}
use sqlite_operator.System.Replay.Statuses.{written}
use sqlite_operator.System.Replay.Replicas.{guarded-keeps, init_sql-keeps, after_init_sql-keeps}

abbrev pub writes_config : NamespacedName → Write → Bool
writes_config key (create_or_update_config_map k content owner) = same_key k key
writes_config key _ = false

pub same_key_self : (key : NamespacedName) → same_key key key ≡ true
same_key_self key = rw (eq_refl key.namespace, eq_refl key.name) refl

module _ {S : Type 0} (client : Client S) (source : NamespacedName) where
  -- What the server is relied on to do: a ConfigMap that is written is read with that content, and no
  -- other write changes it; an object is found under its name, and no write removes the source.
  pub record IsServing : Type 0 where
    pub stores_config :
        (key : NamespacedName) (content : Dict) (owner : Owner) (c : S)
        → (client.send (create_or_update_config_map key content owner) c).0 ≡ none
        → HasContent content (
            client.get_config_map key
              (client.send (create_or_update_config_map key content owner) c).1)
    pub keeps_others :
        (x : Write) (c : S)
        → writes_config (config_of source) x ≡ false
        → client.get_config_map (config_of source) (client.send x c).1
          ≡ client.get_config_map (config_of source) c
    pub found_named :
        (c : S) (db : LitestreamReplica)
        → client.get_replica source c ≡ ok db
        → replica_key db ≡ source
    pub keeps_source :
        (x : Write) (c : S)
        → IsOk (client.get_replica source c)
        → IsOk (client.get_replica source (client.send x c).1)

  -- Whether the ConfigMap of the source can be read and holds the paused text, as it should or not.
  abbrev pub Renders : Bool → S → Type 0
  Renders paused c = HoldsText paused (client.get_config_map (config_of source) c)

  abbrev agrees : Bool → Bool → Bool
  agrees true b = b
  agrees false b = not b

  abbrev renders : Bool → NamespacedName → Dict → Bool
  renders paused key content =
      not (same_key key (config_of source))
      || agrees paused (index content litestream_config_key == paused_config)

  module _ (calm : IsCalm client) (serving : IsServing) (paused : Bool) where
    content-Renders :
        (content : Dict) (r : Result ConfigMap)
        → agrees paused (index content litestream_config_key == paused_config) ≡ true
        → HasContent content r
        → HoldsText paused r
    content-Renders content (ok cm) a h = rw h (ground arith)
    content-Renders content (err e) a h = absurd h

    rewritten-Renders :
        (key : NamespacedName) (content : Dict) (owner : Owner) (c : S)
        → same_key key (config_of source) ≡ true
        → agrees paused (index content litestream_config_key == paused_config) ≡ true
        → Renders paused (client.send (create_or_update_config_map key content owner) c).1
    rewritten-Renders key content owner c t a =
        let x = create_or_update_config_map key content owner in
        let held = serving.stores_config key content owner c (calm.sends x c) in
        content-Renders content _ a (
          subst (λ k. HasContent content (client.get_config_map k (client.send x c).1))
            (same_key_iff key (config_of source) t) held)

    keeps-Renders :
        (x : Write) (w : World S)
        → is_harmless (renders paused) x ≡ true
        → Renders paused w.cluster
        → Renders paused (written client x w).cluster
    keeps-Renders (create_or_update_config_map key content owner) w h r =
        elim (Bool-cases (same_key key (config_of source))) [
          | inl t ↦ rewritten-Renders key content owner w.cluster t (ground (arith, t, h))
          | inr f ↦
              subst (HoldsText paused)
                (sym (
                  serving.keeps_others (create_or_update_config_map key content owner) w.cluster f))
                r
        ]
    keeps-Renders x w h r = subst (HoldsText paused) (sym (serving.keeps_others x w.cluster refl)) r

  module _ (calm : IsCalm client) (serving : IsServing) (store : ConditionStore)
      (hash : String → String) where
    -- Where no write fails, a reconcile of a replica that is found leaves a ConfigMap with the paused
    -- text exactly where the pause annotation is set.
    pub reconcile-Renders :
        (c : S) (db : LitestreamReplica)
        → client.get_replica source c ≡ ok db
        → Renders
            (has_annotation db annotation_pause)
            (Replicas.reconcile client store hash source (start c)).1.cluster
    unfolding Replicas.reconcile Replicas.reconcile_replica reconcile_litestream_config index
    reconcile-Renders c db g =
        let paused = has_annotation db annotation_pause in
        let text : agrees paused (litestream_config db == paused_config) ≡ true =
          ground (arith, litestream_config_pauses db) in
        let I = λ (w : World S). Renders paused w.cluster in
        let keeps = keeps-Renders calm serving paused in
        let key = ap config_of (serving.found_named c db g) in
        rw g (
          guarded-keeps client I (renders paused) keeps store hash
            (reconcile_litestream_config client store db) _ (start c)
            (rewritten-Renders calm serving paused (owned_key db "-litestream") _ _ c
              (ap (λ k. same_key k (config_of source)) key ∙ same_key_self (config_of source)) text)
            (λ w i. after_init_sql-keeps client I (renders paused) keeps store hash _ _ (
              init_sql-keeps client I (renders paused) keeps store db hash w
                (rw (init_sql-same_key db source) refl) i)))
