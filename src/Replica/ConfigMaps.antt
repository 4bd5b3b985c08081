-- ===== src/Replica/ConfigMaps.antt =====
-- reconcileLitestreamConfig and reconcileInitSQLConfig.
use sqlite_operator.Base.{
  ℕ, zero, suc, String, ◌<>◌, Option, none, some, [], ◌∷◌, ◌==◌, if◌then◌else◌,
}
use sqlite_operator.Kube.Errors.{Err}
use sqlite_operator.Kube.Objects.{NamespacedName}
use sqlite_operator.Kube.Client.{
  Client, M, pure, ◌>>=◌, reads, send, create_or_update_config_map, patch_replica_status,
  replica_owner,
}
use sqlite_operator.Api.Replica.{
  LitestreamReplica, LitestreamReplicaStatus, annotation_pause, init_sql_applied, true_status,
  false_status,
}
use sqlite_operator.Config.{paused_config, litestream_config_key, build_litestream_config_yaml}
use sqlite_operator.Restore.Annotations.{has_annotation}
use sqlite_operator.Replica.Conditions.{ConditionStore, with_condition}

abbrev pub owned_key : LitestreamReplica → String → NamespacedName
owned_key db suffix = record {
  namespace = db.metadata.namespace;
  name = db.metadata.name <> suffix;
}

-- The text that the ConfigMap gets.
unfoldable pub litestream_config : LitestreamReplica → String
litestream_config db =
    if has_annotation db annotation_pause then paused_config else build_litestream_config_yaml db

-- `%.8s`: the first characters of a text
abbrev truncated : ℕ → String → String
truncated zero s = ""
truncated (suc n) String.[] = ""
truncated (suc n) (String.◌∷◌ c s) = String.◌∷◌ c (truncated n s)

module _ {S : Type 0} (client : Client S) (store : ConditionStore) where
  unfoldable pub reconcile_litestream_config : LitestreamReplica → M S (Option Err)
  unfolding send
  reconcile_litestream_config db = send client (
      create_or_update_config_map (owned_key db "-litestream")
        ((litestream_config_key, litestream_config db) ∷ []) (replica_owner db))

  abbrev pub received : LitestreamReplica → Option Err → M S (Option Err × LitestreamReplica)
  received new (some e) = pure (some e, new)
  received new none = do latest ← reads (client.refreshed new); pure (none, latest)

  -- A patch of the status. The object is then what the server answers with.
  unfoldable pub patch_hash :
      LitestreamReplica → LitestreamReplicaStatus → M S (Option Err × LitestreamReplica)
  unfolding send
  patch_hash db status =
      let new = record db { status = status } in
      send client (patch_replica_status db new) >>= received new

  abbrev pub without_hash : LitestreamReplica → ℕ → LitestreamReplicaStatus
  without_hash db now =
      with_condition store db now init_sql_applied false_status "NoInitSQL" "no initSQL configured"
        (record (db.status) { init_sql_hash = "" })

  abbrev pub with_hash : LitestreamReplica → ℕ → String → LitestreamReplicaStatus
  with_hash db now hash =
      with_condition store db now init_sql_applied true_status "ConfigMapReady"
        ("init SQL ConfigMap ready (hash " <> truncated 8 hash <> "…)")
        (record (db.status) { init_sql_hash = hash })

  -- Without init SQL, a hash that is still in the status is cleared.
  unfoldable pub clear_hash : LitestreamReplica → M S (Option Err × LitestreamReplica)
  clear_hash db =
      if db.status.init_sql_hash == ""
      then pure (none, db)
      else reads client.now >>= λ now. patch_hash db (without_hash db now)

  -- Behind the ConfigMap: the hash is written where the status has another one.
  unfoldable pub store_hash :
      LitestreamReplica → String → Option Err → M S (Option Err × LitestreamReplica)
  store_hash db hash (some e) = pure (some e, db)
  store_hash db hash none =
      if db.status.init_sql_hash == hash
      then pure (none, db)
      else reads client.now >>= λ now. patch_hash db (with_hash db now hash)

  -- `reconcileInitSQLConfig`, over the SHA-256 digest of a text in hexadecimal: its error, and the
  -- object as it is from then on.
  unfoldable pub reconcile_init_sql_config :
      (String → String) → LitestreamReplica → M S (Option Err × LitestreamReplica)
  reconcile_init_sql_config init_sql_hash db =
      if db.spec.init_sql == ""
      then clear_hash db
      else send client (
          create_or_update_config_map (owned_key db "-init-sql")
            (("init.sql", db.spec.init_sql) ∷ []) (replica_owner db))
        >>= store_hash db (init_sql_hash db.spec.init_sql)
