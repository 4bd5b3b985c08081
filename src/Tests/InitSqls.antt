-- ===== src/Tests/InitSqls.antt =====
-- A server that stores one LitestreamReplica and ConfigMaps, and the step of init.sql on it.
use sqlite_operator.Base.{String, ◌≢◌, refl, false, none, [], arith, if◌then◌else◌}
use sqlite_operator.Base.Dict.{Dict}
use sqlite_operator.Kube.Objects.{NamespacedName}
use sqlite_operator.Kube.Errors.{ok, err}
use sqlite_operator.Kube.Client.{
  Client, Write, create_or_update_config_map, patch_replica_status, start,
}
use sqlite_operator.Api.Replica.{LitestreamReplica}
use sqlite_operator.Replica.ConfigMaps.{reconcile_init_sql_config}
use sqlite_operator.Replica.InitSql.{
  IsRecorder, Stores, Holds, expected_hash, reconcile_init_sql_config-Stores,
}
use sqlite_operator.System.Configs.{same_key}
use sqlite_operator.System.Rendering.{same_key_self}
use sqlite_operator.Tests.Objects.{meta, orders, missing}
use sqlite_operator.Tests.Stores.{store}

record Desk : Type 0 where
  stored : LitestreamReplica
  configs : NamespacedName → Dict

abbrev recorded : Write → Desk → Desk
recorded (patch_replica_status old new) c = record c {
  stored = record (c.stored) { status = new.status };
}
recorded (create_or_update_config_map k content owner) c = record c {
  configs = λ n. if same_key k n then content else c.configs n;
}
recorded _ c = c

abbrev key : NamespacedName
key = record { namespace = "apps"; name = "orders" }

abbrev desk : Client Desk
desk = record {
  get_restore = λ n. λ c. err missing;
  get_replica = λ n. λ c. if same_key n key then ok c.stored else err missing;
  get_deployment = λ n. λ c. err missing;
  get_stateful_set = λ n. λ c. err missing;
  get_config_map = λ n. λ c. ok (record { metadata = meta n.name []; content = c.configs n });
  get_job = λ n. λ c. err missing;
  list_pods = λ ns. λ labels. λ c. ok [];
  select_pods = λ ns. λ selector. λ c. ok [];
  has_kube_client = false;
  open_log = λ n. λ lines. λ c. err missing;
  read_log = λ stream. λ c. err missing;
  set_controller_reference = λ o. λ j. ok j;
  send = λ x. λ c. (none, recorded x c);
  refreshed = λ db. λ c. c.stored;
  now = λ c. 42;
}

desk-IsRecorder : IsRecorder desk key
desk-IsRecorder = record {
  stores_config = λ k content owner c e. rw (same_key_self k) refl;
  keeps_replica = λ k content owner c. refl;
  stores_status = λ old new c g e. ground (arith, g);
  keeps_configs = λ old new k c. refl;
  answers = λ sent stored c g. ground (arith, g);
}

abbrev with_sql : LitestreamReplica
with_sql = record orders { spec = record (orders.spec) { init_sql = "CREATE TABLE t (a);" } }

abbrev constant_hash : String → String
constant_hash sql = "0123456789abcdef"

abbrev empty_desk : Desk
empty_desk = record { stored = with_sql; configs = λ n. [] }

reconcile_init_sql_config-Stores_example :
    (let r = reconcile_init_sql_config desk store constant_hash with_sql (start empty_desk) in
      Stores desk key with_sql (expected_hash constant_hash with_sql) r.0 r.1.cluster
      × (with_sql.spec.init_sql ≢ "" → Holds desk key with_sql r.0 r.1.cluster))
reconcile_init_sql_config-Stores_example =
    reconcile_init_sql_config-Stores desk key desk-IsRecorder store with_sql constant_hash
      (start empty_desk) refl
