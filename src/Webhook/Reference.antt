-- ===== src/Webhook/Reference.antt =====
-- The reference from a pod to its LitestreamReplica.
use Prim.Native.Char.{Char}
use Prim.Native.String.append
use text.Mathlib.TextEquality.{Char-path}
use sqlite_operator.Base.{
  ◌≡◌, ◌≢◌, ◌∙◌, ap, sym, inl, inr, refl, String, ◌<>◌, ◌==◌, Option, true, false, none, some,
  Option-cases, Bool-cases, if◌then◌else◌, arith, eq_iff,
}
use sqlite_operator.Base.Strings.{cut_slash, cut_step, is_slash}
use sqlite_operator.Base.Dict.{index}
use sqlite_operator.Kube.Objects.{NamespacedName, Pod}
use sqlite_operator.Kube.Errors.{Result, ok, err}
use sqlite_operator.Api.Replica.{LitestreamReplica, annotation_config}
use sqlite_operator.Webhook.Injector.{
  Codec, looked_up, default_namespace, resolve_litestream_replica,
}

-- No character of a text is a slash.
abbrev pub HasNoSlash : String → Type 0
HasNoSlash String.[] = Unit
HasNoSlash (String.◌∷◌ c s) = (is_slash c ≡ false) × HasNoSlash s

-- A name without a slash and a text behind a slash are cut apart at the first slash.
pub cut_slash-append :
    (ns name : String) → HasNoSlash ns → cut_slash (ns <> "/" <> name) ≡ some (ns, name)
unfolding cut_slash
cut_slash-append String.[] name h =
    rw (append.nil ("/" <> name), append.cons "/" "" name, append.nil name) refl
cut_slash-append (String.◌∷◌ c s) name (f, h) =
    rw (append.cons c s ("/" <> name), cut_slash-append s name h, f) refl

pub append-ne-nil : (ns name : String) → ns ≢ "" → ns <> "/" <> name ≢ ""
append-ne-nil String.[] name e = absurd (e refl)
append-ne-nil (String.◌∷◌ c s) name e = rw (append.cons c s ("/" <> name)) (λ h. cc)

-- The object that the reference of a pod names, in the pod's namespace where it names none.
pub record Refers (get_replica : NamespacedName → Result LitestreamReplica)
    (reference namespace : String) (db : LitestreamReplica) : Type 0 where
  pub before_slash : String
  pub name : String
  pub cut : reference ≡ (before_slash <> "/") <> name
  pub found :
      get_replica
        (record { namespace = if before_slash == "" then namespace else before_slash; name = name })
      ≡ ok db

is_slash-joined : (c : Char) (s : String) → is_slash c ≡ true → String.◌∷◌ c s ≡ ("" <> "/") <> s
is_slash-joined c s h =
    ap (λ d. String.◌∷◌ d s) (Char-path c "/" (ground (arith, h)))
    ∙ sym (
        ap (λ t. t <> s) (append.nil "/")
        ∙ append.cons "/" "" s
        ∙ ap (String.◌∷◌ "/") (append.nil s))

append-joined :
    (c : Char) (s before after : String)
    → s ≡ (before <> "/") <> after
    → String.◌∷◌ c s ≡ (String.◌∷◌ c before <> "/") <> after
append-joined c s before after e =
    ap (String.◌∷◌ c) e
    ∙ sym (ap (λ t. t <> after) (append.cons c before "/") ∙ append.cons c (before <> "/") after)

cut_step_inv :
    (c : Char) (s before after : String) (r : Option (String × String))
    → cut_step c s r ≡ some (before, after)
    → (b : String) × (before ≡ String.◌∷◌ c b) × (r ≡ some (b, after))
cut_step_inv c s before after none h = cc h
cut_step_inv c s before after (some (b, a)) h = (b, cc h, cc h)

-- The texts around the first slash, put together again.
cut_slash-joined :
    (s before after : String) → cut_slash s ≡ some (before, after) → s ≡ (before <> "/") <> after
unfolding cut_slash
cut_slash-joined String.[] before after h = cc h
cut_slash-joined (String.◌∷◌ c s) before after h = elim (Bool-cases (is_slash c)) [
  | inl t ↦
      let k : some ("", s) ≡ some (before, after) = rw t at h in
      let p : before ≡ "" = cc k in let q : after ≡ s = cc k in rw (p, q) (is_slash-joined c s t)
  | inr f ↦
      let k = rw f at h in
      let (b, e, r) = cut_step_inv c s before after (cut_slash s) k in
      rw e (append-joined c s b after (cut_slash-joined s b after r))
]

module _ {Raw : Type 0} (codec : Codec Raw)
    (get_replica : NamespacedName → Result LitestreamReplica) where
  -- An annotation of a namespace that is not empty and has no slash, a slash, and a name resolves to
  -- the object of that key, where it is found, whatever the namespace of the pod.
  pub resolve_litestream_replica_named :
      (pod : Pod) (pod_namespace ns name : String) (db : LitestreamReplica)
      → index pod.metadata.annotations annotation_config ≡ ns <> "/" <> name
      → HasNoSlash ns
      → ns ≢ ""
      → get_replica (record { namespace = ns; name = name }) ≡ ok db
      → resolve_litestream_replica codec get_replica pod pod_namespace ≡ ok (some db)
  unfolding resolve_litestream_replica
  resolve_litestream_replica_named pod pn ns name db a n e g =
      let nonempty = append-ne-nil ns name e in
      ground (arith, cut_slash-append ns name n, eq_iff ns "", eq_iff (ns <> "/" <> name) "")

  looked_up_inv :
      (ns name : String) (db : LitestreamReplica) (x : Result LitestreamReplica)
      → looked_up codec get_replica ns name x ≡ ok (some db)
      → x ≡ ok db
  looked_up_inv ns name db (ok x) h = cc h
  looked_up_inv ns name db (err e) h = cc h

  looked_up-Refers :
      (reference namespace before name : String) (db : LitestreamReplica)
      → reference ≡ (before <> "/") <> name
      → looked_up codec get_replica (default_namespace codec get_replica before namespace) name (
          get_replica (record {
            namespace = default_namespace codec get_replica before namespace;
            name = name;
          }))
        ≡ ok (some db)
      → Refers get_replica reference namespace db
  looked_up-Refers reference namespace before name db e h = record {
    before_slash = before;
    name = name;
    cut = e;
    found = looked_up_inv _ name db _ h;
  }

  -- What the reference of a pod resolves to is the object that it names.
  pub resolve_litestream_replica-Refers :
      (pod : Pod) (namespace : String) (db : LitestreamReplica)
      → resolve_litestream_replica codec get_replica pod namespace ≡ ok (some db)
      → Refers get_replica (index pod.metadata.annotations "litestream.io/config") namespace db
  unfolding resolve_litestream_replica
  resolve_litestream_replica-Refers pod namespace db h =
      let reference = index pod.metadata.annotations "litestream.io/config" in
      elim (Bool-cases (reference == "")) [
        | inl t ↦ cc (rw t at h)
        | inr f ↦ elim (Option-cases (cut_slash reference)) [
          | inl e ↦ cc (rw (f, e) at h)
          | inr ((before, name), e) ↦
              looked_up-Refers reference namespace before name db
                (cut_slash-joined reference before name e) (rw (f, e) at h)
        ]
      ]
