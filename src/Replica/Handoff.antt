-- ===== src/Replica/Handoff.antt =====
-- What the replica controller hands to the webhook and to the restore controller: the marks on the
-- pod template, and the text of the ConfigMap.
use text.Mathlib.TextPositions.{eq_refl}
use sqlite_operator.Base.{
  String, ◌≡◌, ◌≢◌, refl, true, false, some, List, [], ◌∷◌, ◌==◌, arith, eq_iff, exceeds,
  Bool-cases, inl, inr, if◌then◌else◌,
}
use sqlite_operator.Base.Dict.{Dict, index, insert_all, index-insert}
use sqlite_operator.Kube.Errors.{Err, Result, ok, err}
use sqlite_operator.Kube.Objects.{NamespacedName, Pod}
use sqlite_operator.Kube.Client.{
  Client, start, WorkloadTarget, deployment, stateful_set, Write, patch_workload, emit_event,
  create_or_update_config_map, replica_owner, warning,
}
use sqlite_operator.Api.Replica.{
  LitestreamReplica, annotation_inject, annotation_config, annotation_pause,
}
use sqlite_operator.Config.{paused_config, litestream_config_key, build_litestream_config_yaml}
use sqlite_operator.Config.Laws.{build_litestream_config_yaml-ne-paused_config}
use sqlite_operator.Workload.{
  object, with_object, desired_replicas, pod_template_annotations, target_workload,
}
use sqlite_operator.Restore.Annotations.{has_annotation, inject_enabled, replica_key}
use sqlite_operator.Restore.Phases.{config_key}
use sqlite_operator.Webhook.Injector.{Codec, resolve_litestream_replica}
use sqlite_operator.Webhook.Reference.{
  HasNoSlash, cut_slash-append, append-ne-nil, resolve_litestream_replica_named,
}
use sqlite_operator.Replica.Conditions.{ConditionStore}
use sqlite_operator.Replica.ConfigMaps.{litestream_config, reconcile_litestream_config}
use sqlite_operator.Replica.Target.{
  config_ref, is_annotated, added_annotations, added_labels, too_many_replicas, annotate_target,
  reconcile_target_annotation,
}
use sqlite_operator.Replica.Reconcile.{pod_to_litestream_replica}

-- A patch that marks a pod template: the count and the other annotations stay.
pub record Marks (db : LitestreamReplica) (old new : WorkloadTarget) : Type 0 where
  pub marked : is_annotated db new ≡ true
  pub same_replicas : desired_replicas new ≡ desired_replicas old
  pub others_kept :
      (k : String)
      → k ≢ annotation_inject
      → k ≢ annotation_config
      → index (pod_template_annotations new) k ≡ index (pod_template_annotations old) k

-- What the step does to the target, by the writes that it sends.
pub data Annotates {S : Type 0} (client : Client S) (db : LitestreamReplica) (c : S)
    (ws : List Write) : Type 0 where
  missing_target :
      (e : Err) → target_workload client db c ≡ err e → ws ≡ [] → Annotates client db c ws
  refused :
      (wt : WorkloadTarget)
      → target_workload client db c ≡ ok wt
      → exceeds (desired_replicas wt) 1 ≡ true
      → ws
        ≡ emit_event (replica_owner db) warning "ReplicaCountExceeded" (too_many_replicas wt) ∷ []
      → Annotates client db c ws
  already :
      (wt : WorkloadTarget)
      → target_workload client db c ≡ ok wt
      → is_annotated db wt ≡ true
      → ws ≡ []
      → Annotates client db c ws
  patches :
      (old new : WorkloadTarget)
      → target_workload client db c ≡ ok old
      → exceeds (desired_replicas old) 1 ≡ false
      → Marks db old new
      → ws ≡ patch_workload old new ∷ []
      → Annotates client db c ws

inserted :
    (db : LitestreamReplica) (m : Dict) (k : String)
    → index (insert_all (added_annotations db) m) k ≡ (
        if annotation_config == k
        then config_ref db
        else if annotation_inject == k
        then inject_enabled
        else index m k)
unfolding insert_all
inserted db m k = simp index-insert

inserted_label :
    (m : Dict) (k : String)
    → index (insert_all added_labels m) k
      ≡ (if annotation_inject == k then inject_enabled else index m k)
unfolding insert_all
inserted_label m k = simp index-insert

-- The target with the marks added.
abbrev pub with_marks : LitestreamReplica → WorkloadTarget → WorkloadTarget
with_marks db wt = with_object wt (record (object wt) {
  template_annotations = insert_all (added_annotations db) (object wt).template_annotations;
  template_labels = insert_all added_labels (object wt).template_labels;
})

pub with_marks-Marks :
    (db : LitestreamReplica) (wt : WorkloadTarget) → Marks db wt (with_marks db wt)
unfolding is_annotated
with_marks-Marks db (deployment o) = record {
  marked = simp (inserted, inserted_label, eq_refl);
  same_replicas = refl;
  others_kept = λ k. λ a. λ b. ground (
    arith,
    inserted db o.template_annotations k,
    eq_iff annotation_config k,
    eq_iff annotation_inject k,
  );
}
with_marks-Marks db (stateful_set o) = record {
  marked = simp (inserted, inserted_label, eq_refl);
  same_replicas = refl;
  others_kept = λ k. λ a. λ b. ground (
    arith,
    inserted db o.template_annotations k,
    eq_iff annotation_config k,
    eq_iff annotation_inject k,
  );
}

module _ {S : Type 0} (client : Client S) (db : LitestreamReplica) (c : S) where
  annotate_target-Annotates :
      (r : Result WorkloadTarget)
      → target_workload client db c ≡ r
      → Annotates client db c (annotate_target client db r (start c)).1.sent
  unfolding annotate_target
  annotate_target-Annotates (err e) g = missing_target e g refl
  annotate_target-Annotates (ok wt) g = elim (Bool-cases (exceeds (desired_replicas wt) 1)) [
    | inl t ↦ rw t (refused wt g t refl)
    | inr f ↦ elim (Bool-cases (is_annotated db wt)) [
      | inl t ↦ rw (f, t) (already wt g t refl)
      | inr n ↦ rw (f, n) (patches wt (with_marks db wt) g f (with_marks-Marks db wt) refl)
    ]
  ]

  -- The step leaves the target alone where it cannot be looked up or has the marks; it reports a
  -- target of more than one replica by an event and does not patch it; any other target it patches
  -- once, so that it has the marks and keeps its replica count and its other annotations.
  pub reconcile_target_annotation-Annotates :
      Annotates client db c (reconcile_target_annotation client db (start c)).1.sent
  unfolding reconcile_target_annotation
  reconcile_target_annotation-Annotates =
      annotate_target-Annotates (target_workload client db c) refl

module _ {Raw : Type 0} (codec : Codec Raw)
    (get_replica : NamespacedName → Result LitestreamReplica) where
  -- Where the namespace of a LitestreamReplica is not empty and has no slash, and the object is found,
  -- a pod that has the reference of a template with its marks is resolved by the webhook to it, and a
  -- change of the pod asks for a reconcile of it.
  pub is_annotated-resolves :
      (db latest : LitestreamReplica) (wt : WorkloadTarget) (pod : Pod) (pod_namespace : String)
      → is_annotated db wt ≡ true
      → index pod.metadata.annotations annotation_config
        ≡ index (pod_template_annotations wt) annotation_config
      → HasNoSlash db.metadata.namespace
      → db.metadata.namespace ≢ ""
      → get_replica (replica_key db) ≡ ok latest
      → (resolve_litestream_replica codec get_replica pod pod_namespace ≡ ok (some latest))
        × (pod_to_litestream_replica pod ≡ replica_key db ∷ [])
  unfolding is_annotated pod_to_litestream_replica
  is_annotated-resolves db latest wt pod pn m i n e g =
      let r : index pod.metadata.annotations annotation_config ≡ config_ref db =
        ground
          (arith, eq_iff (index (pod_template_annotations wt) annotation_config) (config_ref db)) in
      let cut = cut_slash-append db.metadata.namespace db.metadata.name n in
      let nonempty = append-ne-nil db.metadata.namespace db.metadata.name e in
      (
        resolve_litestream_replica_named codec get_replica pod pn _ _ latest r n e g,
        ground (arith, eq_iff db.metadata.namespace "", eq_iff (config_ref db) ""),
      )

pub litestream_config_pauses :
    (db : LitestreamReplica)
    → (litestream_config db == paused_config) ≡ has_annotation db annotation_pause
unfolding litestream_config
litestream_config_pauses db = elim (Bool-cases (has_annotation db annotation_pause)) [
  | inl t ↦ rw t (eq_refl paused_config)
  | inr f ↦ rw f (
      ground (
        arith,
        eq_iff (build_litestream_config_yaml db) paused_config,
        build_litestream_config_yaml-ne-paused_config db,
      ))
]

module _ {S : Type 0} (client : Client S) (store : ConditionStore) (db : LitestreamReplica)
    (c : S) where
  -- The replica controller writes one ConfigMap, the one that the restore controller reads; its text
  -- is the paused one exactly where the pause annotation is set.
  reconcile_litestream_config_pauses :
      (content : Dict) × ((reconcile_litestream_config client store db (start c)).1.sent
        ≡ create_or_update_config_map (config_key db) content (replica_owner db) ∷ [])
      × ((index content litestream_config_key == paused_config)
          ≡ has_annotation db annotation_pause)
  unfolding reconcile_litestream_config index
  reconcile_litestream_config_pauses = (_, refl, litestream_config_pauses db)
