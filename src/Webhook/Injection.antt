-- ===== src/Webhook/Injection.antt =====
-- What the mutating webhook does to a pod.
use text.Mathlib.TextPositions.{eq_refl}
use sqlite_operator.Base.{
  ◌≡◌, refl, inl, inr, true, false, String, none, some, List, [], ◌∷◌, ◌++◌, arith, Option, eq_iff,
}
use sqlite_operator.Base.Dict.{index, index-insert, Dict}
use sqlite_operator.Kube.Objects.{Container, Pod, NamespacedName}
use sqlite_operator.Kube.Errors.{Result, ok, err, Result-cases}
use sqlite_operator.Api.Replica.{LitestreamReplica, annotation_inject}
use sqlite_operator.Webhook.Injector.{
  litestream_container_name, any_named, already_injected, find_volume_for_path, sidecar,
  inject_over, inject, with_scrape, marshalled, injected, resolved, Codec, Request, allowed,
  patched, resolve_litestream_replica, handle_pod, handle,
}

any_named-append :
    (n : String) (cs : List Container) (c : Container)
    → c.name ≡ n
    → any_named n (cs ++ (c ∷ [])) ≡ true
any_named-append n [] c e = rw (e, eq_refl)
any_named-append n (x ∷ cs) c e = rw (any_named-append n cs c e) (ground arith)

scrape_keeps : (m : Dict) → index (with_scrape m) annotation_inject ≡ index m annotation_inject
unfolding with_scrape
scrape_keeps m = simp index-insert

-- An injected pod carries the sidecar, and its injection annotation is what it was.
inject_over_marks :
    (pod : Pod) (db : LitestreamReplica) (volume : String)
    → (already_injected (inject_over pod db volume) ≡ true)
      × (index (inject_over pod db volume).metadata.annotations annotation_inject
          ≡ index pod.metadata.annotations annotation_inject)
unfolding inject_over already_injected sidecar
inject_over_marks pod db volume = (
  any_named-append litestream_container_name pod.spec.containers (sidecar db volume) refl,
  scrape_keeps pod.metadata.annotations,
)

inject_inv :
    (pod : Pod) (db : LitestreamReplica) (p : Pod)
    → inject pod db ≡ ok p
    → (volume : String) × (find_volume_for_path pod.spec.containers db.spec.database_path
        ≡ ok volume)
      × (p ≡ inject_over pod db volume)
unfolding inject
inject_inv pod db p h =
    elim (Result-cases (find_volume_for_path pod.spec.containers db.spec.database_path)) [
      | inl (volume, e) ↦ (volume, e, ground arith)
      | inr (x, e) ↦ absurd (ground arith)
    ]

module _ {Raw : Type 0} (codec : Codec Raw)
    (get_replica : NamespacedName → Result LitestreamReplica) where
  -- The conditions under which the webhook changes a pod.
  pub record Injects (req : Request Raw) (pod : Pod) (raw : Raw) : Type 0 where
    pub annotated : index pod.metadata.annotations annotation_inject ≡ "true"
    pub fresh : already_injected pod ≡ false
    pub source : LitestreamReplica
    pub resolves : resolve_litestream_replica codec get_replica pod req.namespace ≡ ok (some source)
    pub volume : String
    pub covered : find_volume_for_path pod.spec.containers source.spec.database_path ≡ ok volume
    pub encodes : codec.marshal (inject_over pod source volume) ≡ ok raw

  marshalled-patched :
      (o original raw : Raw) (r : Result Raw)
      → marshalled codec get_replica o r ≡ patched original raw
      → r ≡ ok raw
  marshalled-patched o original raw (ok x) h = ground arith
  marshalled-patched o original raw (err e) h = cc

  injected-patched :
      (o original raw : Raw) (r : Result Pod)
      → injected codec get_replica o r ≡ patched original raw
      → (p : Pod) × (r ≡ ok p) × (codec.marshal p ≡ ok raw)
  injected-patched o original raw (ok p) h =
      (p, refl, marshalled-patched o original raw (codec.marshal p) h)
  injected-patched o original raw (err e) h = cc

  resolved-patched :
      (o original raw : Raw) (pod : Pod) (r : Result (Option LitestreamReplica))
      → resolved codec get_replica o pod r ≡ patched original raw
      → (db : LitestreamReplica) × (r ≡ ok (some db))
        × (p : Pod) × (inject pod db ≡ ok p)
        × (codec.marshal p ≡ ok raw)
  resolved-patched o original raw pod (ok none) h = cc
  resolved-patched o original raw pod (ok (some db)) h =
      let (p, e, m) = injected-patched o original raw (inject pod db) h in (db, refl, p, e, m)
  resolved-patched o original raw pod (err e) h = cc

  handle_pod-resolved :
      (req : Request Raw) (pod : Pod) (original raw : Raw)
      → handle_pod codec get_replica req pod ≡ patched original raw
      → (index pod.metadata.annotations annotation_inject ≡ "true")
        × (already_injected pod ≡ false)
        × (resolved codec get_replica req.object pod
              (resolve_litestream_replica codec get_replica pod req.namespace)
            ≡ patched original raw)
  unfolding handle_pod
  handle_pod-resolved req pod original raw h =
      ground (arith, eq_iff (index pod.metadata.annotations annotation_inject) "true")

  -- The steps of the webhook on a pod that it patches.
  pub handle_pod-Injects :
      (req : Request Raw) (pod : Pod) (original raw : Raw)
      → handle_pod codec get_replica req pod ≡ patched original raw
      → Injects req pod raw
  handle_pod-Injects req pod original raw h =
      let (a, f, r) = handle_pod-resolved req pod original raw h in
      let (db, s, p, i, m) = resolved-patched req.object original raw pod _ r in
      let (volume, v, e) = inject_inv pod db p i in
      record {
        annotated = a;
        fresh = f;
        source = db;
        resolves = s;
        volume = volume;
        covered = v;
        encodes = rw e at m;
      }

  -- Injection happens once: where the encoding of a pod decodes to the pod, a pod that was patched
  -- comes back as one that has the sidecar already, and is let through without another patch.
  pub handle-patched :
      (req : Request Raw) (pod : Pod) (original raw : Raw)
      → ((p : Pod) (r : Raw) → codec.marshal p ≡ ok r → codec.decode r ≡ ok p)
      → handle_pod codec get_replica req pod ≡ patched original raw
      → handle codec get_replica (record req { object = raw }) ≡ allowed "sidecar already present"
  unfolding handle handle_pod
  handle-patched req pod original raw faithful h =
      let i = handle_pod-Injects req pod original raw h in
      let p = inject_over pod i.source i.volume in
      let (present, kept) = inject_over_marks pod i.source i.volume in
      rw (faithful p raw i.encodes, kept, i.annotated, present)
