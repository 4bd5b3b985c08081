-- ===== src/System/Configs.antt =====
-- The ConfigMap of a source, from which its Litestream reads: it stays paused while a restore needs it.
use Prim.Native.Char.{Char, code}
use Prim.Native.String.append
use text.Mathlib.TextLemmas.{append_cancel_right}
use sqlite_operator.Base.{
  ℕ, String, ◌<>◌, ◌≡◌, ◌≢◌, ◌⊎◌, ◌∙◌, sym, ap, refl, Bool, true, false, not, ◌&&◌, ◌||◌, some,
  List, [], ◌∷◌, ◌==◌, eq_iff, arith, Bool-cases, inl, inr,
}
use sqlite_operator.Base.Dict.{Dict, index}
use sqlite_operator.Kube.Errors.{Result, ok, err}
use sqlite_operator.Kube.Objects.{NamespacedName, ConfigMap}
use sqlite_operator.Kube.Client.{Client, start, Write, create_or_update_config_map}
use sqlite_operator.Api.Replica.{LitestreamReplica}
use sqlite_operator.Api.Restore.{RestorePhase, scaling_down, running, validating, LitestreamRestore}
use sqlite_operator.Config.{paused_config, litestream_config_key}
use sqlite_operator.Replica.ConfigMaps.{owned_key}
use sqlite_operator.Restore.Annotations.{replica_key}
use sqlite_operator.Restore.Phases.{is_paused_config, config_key, reconcile_pausing}
use sqlite_operator.Restore.Trace.{written_phase}
use sqlite_operator.System.Replay.{
  replay, config_keys, config_of, key_of, fits_config, all_harmless,
}

-- From the scaling down to the end of the validation.
unfoldable pub needs_config : RestorePhase → Bool
needs_config scaling_down = true
needs_config running = true
needs_config validating = true
needs_config _ = false

abbrev pub same_key : NamespacedName → NamespacedName → Bool
same_key a b = a.namespace == b.namespace && a.name == b.name

-- The ConfigMap holds the paused text, if it can be read.
abbrev pub paused_text : Result ConfigMap → Bool
paused_text (ok cm) = is_paused_config cm
paused_text (err e) = true

key_ext : (a b : NamespacedName) → a.namespace ≡ b.namespace → a.name ≡ b.name → a ≡ b
key_ext a b p q = ground (arith, p, q)

pub same_key_iff : (a b : NamespacedName) → same_key a b ≡ true → a ≡ b
same_key_iff a b s = ground (arith, eq_iff a.namespace b.namespace, eq_iff a.name b.name)

-- The ConfigMaps of two objects differ.
pub config_of-key : (a b : NamespacedName) → same_key (config_of a) (config_of b) ≡ true → a ≡ b
config_of-key a b t =
    let e = same_key_iff (config_of a) (config_of b) t in
    key_ext a b (ap (λ k. k.namespace) e)
      (append_cancel_right a.name b.name "-litestream" (ap (λ k. k.name) e))

config_of-same_key : (a b : NamespacedName) → a ≢ b → same_key (config_of a) (config_of b) ≡ false
config_of-same_key a b n = elim (Bool-cases (same_key (config_of a) (config_of b))) [
  | inr f ↦ f
  | inl t ↦ absurd (n (config_of-key a b t))
]

module _ {S : Type 0} (client : Client S) (source : NamespacedName) where
  abbrev pub is_config_paused : S → Bool
  is_config_paused c = paused_text (client.get_config_map (config_of source) c)

  -- Another ConfigMap, or the paused text.
  abbrev pub leaves_config : NamespacedName → Dict → Bool
  leaves_config key content =
      not (same_key key (config_of source)) || index content litestream_config_key == paused_config

  abbrev pub all_leave_config : List Write → Bool
  all_leave_config [] = true
  all_leave_config (x ∷ xs) = fits_config leaves_config x && all_leave_config xs

  config_keys-none : (xs : List Write) → config_keys xs ≡ [] → all_leave_config xs ≡ true
  config_keys-none [] k = refl
  config_keys-none (x ∷ xs) k = ground (arith, config_keys-none xs)

  config_keys-one :
      (key : NamespacedName) (xs : List Write)
      → same_key key (config_of source) ≡ false
      → config_keys xs ≡ key ∷ []
      → all_leave_config xs ≡ true
  config_keys-one key [] s k = refl
  config_keys-one key (create_or_update_config_map k' content owner ∷ xs) s k =
      let same : k' ≡ key = cc k in let rest = config_keys-none xs (cc k) in rw (same, s, rest) refl
  config_keys-one key (x ∷ xs) s k = config_keys-one key xs s k

  pub pausing-config :
      (restore : LitestreamRestore) (db : LitestreamReplica) (c : S)
      → written_phase (reconcile_pausing client restore db (start c)).1.sent ≡ some scaling_down
      → paused_text (client.get_config_map (config_key db) c) ≡ true
  unfolding reconcile_pausing
  pausing-config restore db c h = ground arith

  pub config_keys-all_leave_config :
      (key : NamespacedName) (xs : List Write)
      → key ≢ source
      → (config_keys xs ≡ []) ⊎ (config_keys xs ≡ config_of key ∷ [])
      → all_leave_config xs ≡ true
  config_keys-all_leave_config key xs n (inl k) = config_keys-none xs k
  config_keys-all_leave_config key xs n (inr k) =
      config_keys-one (config_of key) xs (config_of-same_key key source n) k

  -- What else the server is relied on to do: an object is found under its name, and a ConfigMap is not
  -- changed by a write of another one.
  pub record KeepsConfigs (restore_key : NamespacedName) : Type 0 where
    pub named :
        (c : S) (req : NamespacedName) (db : LitestreamReplica)
        → client.get_replica req c ≡ ok db
        → replica_key db ≡ req
    pub restore_named :
        (c : S) (r : LitestreamRestore)
        → client.get_restore restore_key c ≡ ok r
        → key_of r ≡ restore_key
    pub keeps_config :
        (x : Write) (c : S)
        → fits_config leaves_config x ≡ true
        → is_config_paused c ≡ true
        → is_config_paused (client.send x c).1 ≡ true

  pub replay-is_config_paused :
      (restore_key : NamespacedName)
      → KeepsConfigs restore_key
      → (c : S) (xs : List Write) → all_leave_config xs ≡ true
      → is_config_paused c ≡ true
      → is_config_paused (replay client xs c) ≡ true
  replay-is_config_paused key lawful c [] l p = p
  replay-is_config_paused key lawful c (x ∷ xs) l p =
      lawful.keeps_config x (replay client xs c) (ground arith)
        (replay-is_config_paused key lawful c xs (ground arith) p)

  pub harmless-all_leave_config :
      (xs : List Write) → all_harmless leaves_config xs ≡ true → all_leave_config xs ≡ true
  harmless-all_leave_config [] h = refl
  harmless-all_leave_config (x ∷ xs) h = ground (arith, harmless-all_leave_config xs)

-- The code of the last character, or a default.
abbrev last_code : ℕ → String → ℕ
last_code k String.[] = k
last_code k (String.◌∷◌ c s) = last_code (code c) s

last_code-append :
    (k : ℕ) (s : String) (d : Char) (t : String)
    → last_code k (s <> String.◌∷◌ d t) ≡ last_code (code d) t
last_code-append k String.[] d t = ap (last_code k) (append.nil (String.◌∷◌ d t))
last_code-append k (String.◌∷◌ c s) d t =
    ap (last_code k) (append.cons c s (String.◌∷◌ d t)) ∙ last_code-append (code c) s d t

-- The ConfigMap of an init.sql is no ConfigMap of a litestream.yml.
init_sql-ne-litestream : (a b : String) → a <> "-init-sql" ≢ b <> "-litestream"
init_sql-ne-litestream a b e = absurd (
    omega (
      arith,
      sym (last_code-append 0 a "-" "init-sql")
          ∙ ap (last_code 0) e
          ∙ last_code-append 0 b "-" "litestream",
    ))

pub init_sql-same_key :
    (db : LitestreamReplica) (source : NamespacedName)
    → same_key (owned_key db "-init-sql") (config_of source) ≡ false
init_sql-same_key db source =
    elim (Bool-cases (same_key (owned_key db "-init-sql") (config_of source))) [
      | inr f ↦ f
      | inl t ↦
          let e = same_key_iff (owned_key db "-init-sql") (config_of source) t in
          absurd (init_sql-ne-litestream db.metadata.name source.name (ap (λ k. k.name) e))
    ]
