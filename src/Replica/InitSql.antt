-- ===== src/Replica/InitSql.antt =====
-- reconcileInitSQLConfig: what is stored of init.sql and of its hash.
use sqlite_operator.Base.{
  String, ◌≡◌, ◌≢◌, ◌∙◌, sym, ap, refl, Option, none, some, [], ◌∷◌, ◌==◌, eq_iff, Bool-cases,
  Option-cases, inl, inr, if◌then◌else◌,
}
use mathlib.Core.Path.{subst}
use sqlite_operator.Base.Dict.{Dict}
use sqlite_operator.Kube.Objects.{NamespacedName, ConfigMap}
use sqlite_operator.Kube.Errors.{Err, Result, ok, err}
use sqlite_operator.Kube.Client.{
  Client, World, Write, Owner, replica_owner, create_or_update_config_map, patch_replica_status,
  send,
}
use sqlite_operator.Api.Replica.{LitestreamReplica, LitestreamReplicaStatus}
use sqlite_operator.Replica.Conditions.{ConditionStore}
use sqlite_operator.Replica.ConfigMaps.{
  owned_key, patch_hash, without_hash, with_hash, clear_hash, store_hash, reconcile_init_sql_config,
}

-- The hash that the status should hold.
abbrev pub expected_hash : (String → String) → LitestreamReplica → String
expected_hash hash db = if db.spec.init_sql == "" then "" else hash db.spec.init_sql

-- A ConfigMap that was read, with this content.
abbrev pub HasContent : Dict → Result ConfigMap → Type 0
HasContent content (ok cm) = cm.content ≡ content
HasContent content (err e) = ⊥

abbrev pub sql_content : LitestreamReplica → Dict
sql_content db = ("init.sql", db.spec.init_sql) ∷ []

module _ {S : Type 0} (client : Client S) (key : NamespacedName) where
  -- What the server is relied on to do: a write that is accepted is stored, a patch of the status
  -- changes the status alone, its answer is the object that is stored, and a ConfigMap is no replica.
  pub record IsRecorder : Type 0 where
    pub stores_config :
        (k : NamespacedName) (content : Dict) (owner : Owner) (c : S)
        → (client.send (create_or_update_config_map k content owner) c).0 ≡ none
        → HasContent content (
            client.get_config_map k (client.send (create_or_update_config_map k content owner) c).1)
    pub keeps_replica :
        (k : NamespacedName) (content : Dict) (owner : Owner) (c : S)
        → client.get_replica key (client.send (create_or_update_config_map k content owner) c).1
          ≡ client.get_replica key c
    pub stores_status :
        (old new : LitestreamReplica) (c : S)
        → client.get_replica key c ≡ ok old
        → (client.send (patch_replica_status old new) c).0 ≡ none
        → client.get_replica key (client.send (patch_replica_status old new) c).1
          ≡ ok (record old { status = new.status })
    pub keeps_configs :
        (old new : LitestreamReplica) (k : NamespacedName) (c : S)
        → client.get_config_map k (client.send (patch_replica_status old new) c).1
          ≡ client.get_config_map k c
    pub answers :
        (sent stored : LitestreamReplica) (c : S)
        → client.get_replica key c ≡ ok stored
        → client.refreshed sent c ≡ stored

  -- Every write is accepted.
  abbrev pub AcceptsAll : Type 0
  AcceptsAll = (x : Write) (c : S) → (client.send x c).0 ≡ none

  -- Without an error, the object goes on as it is stored: with the hash, and with the specification
  -- that it had; an error comes of a refused write.
  abbrev pub Stores : LitestreamReplica → String → Option Err × LitestreamReplica → S → Type 0
  Stores db hash (some e, new) c = ¬ AcceptsAll
  Stores db hash (none, new) c =
      (client.get_replica key c ≡ ok new) × (new.status.init_sql_hash ≡ hash) × (new.spec ≡ db.spec)

  -- Besides, the ConfigMap of the object holds the SQL.
  abbrev pub Holds : LitestreamReplica → Option Err × LitestreamReplica → S → Type 0
  Holds db (some e, new) c = Unit
  Holds db (none, new) c =
      HasContent (sql_content db) (client.get_config_map (owned_key db "-init-sql") c)

  module _ (lawful : IsRecorder) (store : ConditionStore) (db : LitestreamReplica) where
    -- A patch of the status, accepted or not, behind a state at which the object is stored.
    patch_hash-Stores :
        (status : LitestreamReplicaStatus) (w : World S)
        → client.get_replica key w.cluster ≡ ok db
        → (let r = patch_hash client store db status w in
            Stores db status.init_sql_hash r.0 r.1.cluster)
    unfolding patch_hash send
    patch_hash-Stores status w g =
        let new = record db { status = status } in
        let sent = client.send (patch_replica_status db new) w.cluster in
        elim (Option-cases sent.0) [
          | inl a ↦
              let stored = lawful.stores_status db new w.cluster g a in
              let answer = lawful.answers new new sent.1 stored in
              rw a (
                stored ∙ ap ok (sym answer),
                ap (λ x. x.status.init_sql_hash) answer,
                ap (λ x. x.spec) answer,
              )
          | inr (e, a) ↦ rw a (λ all. cc (a, all (patch_replica_status db new) w.cluster))
        ]

    patch_hash-Holds :
        (status : LitestreamReplicaStatus) (w : World S)
        → HasContent (sql_content db) (client.get_config_map (owned_key db "-init-sql") w.cluster)
        → (let r = patch_hash client store db status w in Holds db r.0 r.1.cluster)
    unfolding patch_hash send
    patch_hash-Holds status w h =
        let new = record db { status = status } in
        elim (Option-cases (client.send (patch_replica_status db new) w.cluster).0) [
          | inl a ↦ rw a (
              subst (HasContent (sql_content db))
                (sym (lawful.keeps_configs db new (owned_key db "-init-sql") w.cluster)) h)
          | inr (e, a) ↦ rw a tt
        ]

    clear_hash-Stores :
        (w : World S)
        → client.get_replica key w.cluster ≡ ok db
        → (let r = clear_hash client store db w in Stores db "" r.0 r.1.cluster)
    unfolding clear_hash
    clear_hash-Stores w g = elim (Bool-cases (db.status.init_sql_hash == "")) [
      | inl t ↦ rw t (g, (eq_iff db.status.init_sql_hash "").0 t, refl)
      | inr n ↦ rw n (patch_hash-Stores (without_hash client store db (client.now w.cluster)) w g)
    ]

    store_hash-Stores :
        (hash : String) (e : Option Err) (w : World S)
        → (AcceptsAll → e ≡ none)
        → client.get_replica key w.cluster ≡ ok db
        → (let r = store_hash client store db hash e w in Stores db hash r.0 r.1.cluster)
    unfolding store_hash
    store_hash-Stores hash (some e) w f g = λ all. cc (f all)
    store_hash-Stores hash none w f g = elim (Bool-cases (db.status.init_sql_hash == hash)) [
      | inl t ↦ rw t (g, (eq_iff db.status.init_sql_hash hash).0 t, refl)
      | inr n ↦ rw n (patch_hash-Stores (with_hash client store db (client.now w.cluster) hash) w g)
    ]

    store_hash-Holds :
        (hash : String) (e : Option Err) (w : World S)
        → (e ≡ none
            → HasContent
                (sql_content db)
                (client.get_config_map (owned_key db "-init-sql") w.cluster))
        → (let r = store_hash client store db hash e w in Holds db r.0 r.1.cluster)
    unfolding store_hash
    store_hash-Holds hash (some e) w h = tt
    store_hash-Holds hash none w h = elim (Bool-cases (db.status.init_sql_hash == hash)) [
      | inl t ↦ rw t (h refl)
      | inr n ↦
          rw n (patch_hash-Holds (with_hash client store db (client.now w.cluster) hash) w (h refl))
    ]

    -- From a state at which the object is stored, on a server that keeps the laws of IsRecorder, the
    -- step ends with an error only where a write is refused. Without an error, the object that is
    -- stored is the one that the reconcile goes on with; its status holds the hash of the SQL, "" where
    -- there is no SQL, its specification is as it was, and where there is SQL, its ConfigMap holds the
    -- SQL as init.sql and nothing else.
    pub reconcile_init_sql_config-Stores :
        (hash : String → String) (w : World S)
        → client.get_replica key w.cluster ≡ ok db
        → (let r = reconcile_init_sql_config client store hash db w in
            Stores db (expected_hash hash db) r.0 r.1.cluster
            × (db.spec.init_sql ≢ "" → Holds db r.0 r.1.cluster))
    unfolding reconcile_init_sql_config send
    reconcile_init_sql_config-Stores hash w g = elim (Bool-cases (db.spec.init_sql == "")) [
      | inl t ↦ (rw t (clear_hash-Stores w g), λ n. absurd (n ((eq_iff db.spec.init_sql "").0 t)))
      | inr f ↦
          let k = owned_key db "-init-sql" in
          let x = create_or_update_config_map k (sql_content db) (replica_owner db) in
          let kept = lawful.keeps_replica k (sql_content db) (replica_owner db) w.cluster ∙ g in
          let w' : World S = record { cluster = (client.send x w.cluster).1; sent = x ∷ w.sent } in
          let e = (client.send x w.cluster).0 in
          (
            rw f (store_hash-Stores (hash db.spec.init_sql) e w' (λ all. all x w.cluster) kept),
            λ n. rw f (
                store_hash-Holds (hash db.spec.init_sql) e w'
                  (lawful.stores_config k (sql_content db) (replica_owner db) w.cluster)),
          )
    ]
