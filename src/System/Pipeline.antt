-- ===== src/System/Pipeline.antt =====
-- From the validating webhook over the replica controller to the mutating webhook.
use sqlite_operator.Base.{
  String, ◌≡◌, ◌≢◌, ◌⊎◌, ◌∙◌, sym, ap, refl, true, false, some, List, [], ◌∷◌, ◌==◌, eq_iff,
  exceeds, arith, Bool-cases, inl, inr,
}
use sqlite_operator.Base.Dict.{index}
use sqlite_operator.Webhook.Reference.{HasNoSlash}
use sqlite_operator.Kube.Errors.{Result, ok, Result-cases}
use sqlite_operator.Kube.Objects.{NamespacedName, Pod}
use sqlite_operator.Kube.Client.{Client, start, Write, patch_workload, WorkloadTarget}
use sqlite_operator.Api.Replica.{LitestreamReplica, annotation_config}
use sqlite_operator.Workload.{target_workload, desired_replicas, pod_template_annotations}
use sqlite_operator.Restore.Annotations.{replica_key}
use sqlite_operator.Replica.Target.{config_ref, is_annotated, reconcile_target_annotation}
use sqlite_operator.Replica.Reconcile.{pod_to_litestream_replica}
use sqlite_operator.Replica.Handoff.{
  Annotates, missing_target, refused, already, patches, reconcile_target_annotation-Annotates,
  is_annotated-resolves,
}
use sqlite_operator.Webhook.Validator.{Reader, key, validate_litestream_replica}
use sqlite_operator.Webhook.Admission.{IsAdmissible, validate_iff}
use sqlite_operator.Webhook.Injector.{Codec, resolve_litestream_replica}

-- What the client of the validating webhook reads at a state of the cluster.
abbrev pub reader_at : {S : Type 0} → Client S → S → Reader
reader_at client c = record {
  get_deployment = λ n. client.get_deployment n c;
  get_stateful_set = λ n. client.get_stateful_set n c;
}

module _ {S : Type 0} (client : Client S) (c : S) (db : LitestreamReplica) where
  IsAdmissible-one_writer :
      (wt : WorkloadTarget)
      → IsAdmissible (reader_at client c) db
      → target_workload client db c ≡ ok wt
      → exceeds (desired_replicas wt) 1 ≡ false
  unfolding target_workload
  IsAdmissible-one_writer wt i t = elim (Bool-cases (db.spec.target_stateful_set == "")) [
    | inl e ↦ elim (Result-cases (client.get_deployment (key db db.spec.target_deployment) c)) [
      | inl (o, g) ↦
          let one = i.one_writer.0 ((eq_iff db.spec.target_stateful_set "").0 e) in
          ground (arith, e, g, t, rw g at one)
      | inr (x, g) ↦ ground (arith, e, g, t)
    ]
    | inr e ↦ elim (Result-cases (client.get_stateful_set (key db db.spec.target_stateful_set) c)) [
      | inl (o, g) ↦
          let one = i.one_writer.1 (λ q. cc (e, (eq_iff db.spec.target_stateful_set "").1 q)) in
          ground (arith, e, g, t, rw g at one)
      | inr (x, g) ↦ ground (arith, e, g, t)
    ]
  ]

  -- The target with the marks, which it has already or is given.
  pub record Marked (old : WorkloadTarget) (ws : List Write) : Type 0 where
    pub new : WorkloadTarget
    pub sent : ((ws ≡ []) × (new ≡ old)) ⊎ (ws ≡ patch_workload old new ∷ [])
    pub annotated : is_annotated db new ≡ true
    pub same_replicas : desired_replicas new ≡ desired_replicas old

  Annotates-Marked :
      (wt : WorkloadTarget) (ws : List Write)
      → target_workload client db c ≡ ok wt
      → exceeds (desired_replicas wt) 1 ≡ false
      → Annotates client db c ws
      → Marked wt ws
  Annotates-Marked wt ws t n (missing_target e f s) = cc (t, f)
  Annotates-Marked wt ws t n (refused old f r s) =
      let same : old ≡ wt = cc (t, f) in cc (n, r, same)
  Annotates-Marked wt ws t n (already old f m s) =
      let same : old ≡ wt = cc (t, f) in
      record { new = wt; sent = inl (s, refl); annotated = rw same at m; same_replicas = refl }
  Annotates-Marked wt ws t n (patches old new f r m s) =
      let same : old ≡ wt = cc (t, f) in
      record {
        new = new;
        sent = inr (rw same at s);
        annotated = m.marked;
        same_replicas = m.same_replicas ∙ ap desired_replicas same;
      }

  annotated-config :
      (wt : WorkloadTarget)
      → is_annotated db wt ≡ true
      → index (pod_template_annotations wt) annotation_config ≡ config_ref db
  unfolding is_annotated
  annotated-config wt m =
      ground
        (arith, m, eq_iff (index (pod_template_annotations wt) annotation_config) (config_ref db))

  -- Where the validating webhook finds no error in a LitestreamReplica over the live workloads, and the
  -- target is found, the replica controller marks the target at the same state of the cluster: its
  -- template has the marks already or is patched once to have them, and keeps its replica count. Where
  -- besides the namespace is not empty and has no slash and the object is found, a pod with the
  -- reference of that template is resolved to the object by the mutating webhook, and asks for a
  -- reconcile of it.
  pub validate-marks :
      {Raw : Type 0} (codec : Codec Raw) (get_replica : NamespacedName → Result LitestreamReplica)
      (wt : WorkloadTarget) (pod : Pod) (pod_namespace : String)
      → (validate_litestream_replica (some (reader_at client c)) db).1 ≡ []
      → target_workload client db c ≡ ok wt
      → HasNoSlash db.metadata.namespace
      → db.metadata.namespace ≢ ""
      → get_replica (replica_key db) ≡ ok db
      → index pod.metadata.annotations annotation_config ≡ config_ref db
      → (m : Marked wt (reconcile_target_annotation client db (start c)).1.sent) × (index
            (pod_template_annotations m.new)
            annotation_config
          ≡ config_ref db)
        × (resolve_litestream_replica codec get_replica pod pod_namespace ≡ ok (some db))
        × (pod_to_litestream_replica pod ≡ replica_key db ∷ [])
  validate-marks codec get_replica wt pod pod_namespace v t n e g r =
      let one = IsAdmissible-one_writer wt ((validate_iff (reader_at client c) db).0 v) t in
      let m = Annotates-Marked wt _ t one (reconcile_target_annotation-Annotates client db c) in
      let named = annotated-config m.new m.annotated in
      let (found, asked) =
        is_annotated-resolves codec get_replica db db m.new pod pod_namespace m.annotated
          (r ∙ sym named) n e g in
      (m, named, found, asked)
