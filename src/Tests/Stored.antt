-- ===== src/Tests/Stored.antt =====
-- A small memory: an object whose annotations, destination, user, last backup and conditions lie behind
-- pointers, a restore, and a list of each.
use sqlite_operator.Base.{
  ℕ, zero, suc, true, false, List, Option, none, some, [], ◌∷◌, pos, or_default,
}
use sqlite_operator.Base.Dict.{Dict}
use sqlite_operator.Kube.Objects.{ObjectMeta, ResourceRequirements}
use sqlite_operator.Api.Replica.{
  LitestreamReplica, Condition, ready, true_status, annotation_pause, Phase,
}
use sqlite_operator.Api.Restore.{LitestreamRestore, running}
use sqlite_operator.Copies.Memory.{Library, TypeMeta, StoredReplica, StoredRestore, StoredList}
use sqlite_operator.Copies.Heap.{
  pure, ◌>>=◌, Heap, leaf_cell, s3_cell, conditions_array, time_cell, integer_cell, replica_cell,
  replicas_array, replica_list_cell, restore_cell, restores_array, restore_list_cell, copy_pointer,
}
use sqlite_operator.Copies.Slots.{leaf_slot}
use sqlite_operator.Copies.Calls.{Calls}
use sqlite_operator.Copies.Deep.{Plain, Pointed}
use sqlite_operator.Copies.Parts.{One}
use sqlite_operator.Copies.Meaning.{ListMeta, Typed, ListOf, Meaning}
use sqlite_operator.Tests.Objects.{meta, bucket, orders, undo}

-- An ObjectMeta whose annotations are a map behind a pointer.
pub record SmallMeta : Type 0 where
  pub plain : ObjectMeta
  pub annotations : Option ℕ

abbrev pub small : Library
small = record {
  Meta = SmallMeta;
  ListMeta = ListMeta;
  Resources = ResourceRequirements;
  Leaf = Dict;
}

abbrev pub calls : Calls small
calls = record {
  copy_meta =
      λ t. copy_pointer leaf_slot pure t.annotations >>= λ a. pure (record t { annotations = a });
  copy_list_meta = pure;
  copy_resources = pure;
  copy_condition = pure;
  copy_time = pure;
}

abbrev pub meaning : Meaning small
meaning = record {
  StandsMeta =
      One (λ t. t.annotations) (λ t u. record (t.plain) { annotations = or_default u [] })
        (Pointed leaf_slot Plain);
  StandsListMeta = Plain;
  StandsResources = Plain;
}

abbrev pub replica_kind : TypeMeta
replica_kind = record { kind = "LitestreamReplica"; api_version = "litestream.io/v1" }

abbrev pub restore_kind : TypeMeta
restore_kind = record { kind = "LitestreamRestore"; api_version = "litestream.io/v1" }

abbrev pub is_ready : Condition
is_ready = record {
  type = ready;
  status = true_status;
  reason = "Ready";
  message = "";
  observed_generation = 1;
  last_transition_time = 7;
}

abbrev pub stored_replica : StoredReplica small
stored_replica = record {
  type_meta = replica_kind;
  metadata = record { plain = meta "orders" []; annotations = some 0 };
  spec = record {
    database_name = "orders.db";
    database_path = "/data";
    target_deployment = "orders";
    target_stateful_set = "";
    image = "";
    backup = record {
      enabled = true;
      destination = record { s3 = some 1 };
      retention = record { duration = "24h" };
      sync_interval = "";
      log_level = "";
      resources = none;
      auto_restore = false;
    };
    init_sql = "";
    init_image = "";
    run_as_user = some 4;
    run_as_group = none;
  };
  status = record {
    phase = Phase.paused;
    ready = false;
    backup_healthy = true;
    last_backup = some 3;
    replication_lag = "";
    init_sql_hash = "";
    observed_generation = 1;
    conditions = some (record { array = 2; offset = 0; length = 1 });
  };
}

abbrev pub the_replica : LitestreamReplica
the_replica = record {
  metadata = meta "orders" ((annotation_pause, "true") ∷ []);
  spec = record (orders.spec) { run_as_user = some (pos 1000) };
  status = record {
    phase = Phase.paused;
    ready = false;
    backup_healthy = true;
    last_backup = some 42;
    replication_lag = "";
    init_sql_hash = "";
    observed_generation = 1;
    conditions = is_ready ∷ [];
  };
}

abbrev pub stored_restore : StoredRestore small
stored_restore = record {
  type_meta = restore_kind;
  metadata = record { plain = meta "undo" []; annotations = none };
  spec = record {
    source_ref = "orders";
    target_pvc = "orders-data";
    target_path = "/data/orders.db";
    timestamp = "";
    image = "";
    force = true;
    run_as_user = none;
    run_as_group = none;
  };
  status = record {
    phase = running;
    job_name = "undo-restore";
    original_replicas = some 8;
    start_time = some 3;
    completion_time = none;
    message = "";
  };
}

abbrev pub the_restore : LitestreamRestore
the_restore = record undo {
  status = record {
    phase = running;
    job_name = "undo-restore";
    original_replicas = some (pos 2);
    start_time = some 42;
    completion_time = none;
    message = "";
  };
}

abbrev pub list_meta : ListMeta
list_meta = record {
  self_link = "";
  resource_version = "12";
  continue_token = "";
  remaining_item_count = none;
}

abbrev pub stored_list : TypeMeta → ℕ → StoredList small
stored_list kind array = record {
  type_meta = kind;
  metadata = list_meta;
  items = some (record { array = array; offset = 0; length = 1 });
}

abbrev pub at : {A : Type 0} → ℕ → List A → Option A
at n [] = none
at zero (x ∷ xs) = some x
at (suc n) (x ∷ xs) = at n xs

abbrev pub memory : Heap small
memory = record {
  next = 12;
  cell = λ a. at a (
      leaf_cell ((annotation_pause, "true") ∷ [])
      ∷ s3_cell bucket
      ∷ conditions_array (is_ready ∷ [])
      ∷ time_cell 42
      ∷ integer_cell (pos 1000)
      ∷ replica_cell stored_replica
      ∷ replicas_array (stored_replica ∷ [])
      ∷ replica_list_cell (stored_list replica_kind 6)
      ∷ integer_cell (pos 2)
      ∷ restore_cell stored_restore
      ∷ restores_array (stored_restore ∷ [])
      ∷ restore_list_cell (stored_list restore_kind 10)
      ∷ []);
}

abbrev pub typed : {A : Type 0} → TypeMeta → A → Typed A
typed kind a = record { type_meta = kind; object = a }

abbrev pub list_of : {A : Type 0} → TypeMeta → A → ListOf A
list_of kind a = record { type_meta = kind; metadata = list_meta; items = a ∷ [] }
