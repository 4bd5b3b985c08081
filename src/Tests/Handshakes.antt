-- ===== src/Tests/Handshakes.antt =====
-- The two controllers on a cluster that keeps ConfigMaps by their name, with one restore and its source,
-- which nobody changes.
use sqlite_operator.Base.{String, ◌≡◌, refl, ap, true, false, none, some, [], if◌then◌else◌, arith}
use sqlite_operator.Base.Dict.{Dict}
use sqlite_operator.Kube.Objects.{NamespacedName}
use sqlite_operator.Kube.Errors.{ok, err}
use sqlite_operator.Kube.Client.{Client, Write, create_or_update_config_map, patch_restore_status}
use sqlite_operator.Api.Replica.{LitestreamReplica, annotation_pause}
use sqlite_operator.Api.Restore.{LitestreamRestoreStatus, scaling_down, complete}
use sqlite_operator.Workload.{target_for_restore}
use sqlite_operator.Restore.Annotations.{has_annotation, replica_key}
use sqlite_operator.Restore.Progress.{IsCalm}
use sqlite_operator.Restore.Trace.{written_phase, writes_of}
use sqlite_operator.System.Configs.{same_key}
use sqlite_operator.System.Replay.{is_status_patch, config_of}
use sqlite_operator.System.Store.{IsStore}
use sqlite_operator.System.Rendering.{IsServing, writes_config, same_key_self}
use sqlite_operator.System.Handshake.{answered, pausing-answered, scaling_up-answered}
use sqlite_operator.Tests.Objects.{orders, paused_orders, bucket, workload, missing, meta}
use sqlite_operator.Tests.Stores.{store}
use sqlite_operator.Tests.Runs.{paused_status, scaling_up_status, undo_at}

abbrev key : String → NamespacedName
key name = record { namespace = "apps"; name = name }

record Board : Type 0 where
  status : LitestreamRestoreStatus
  configs : NamespacedName → Dict

abbrev changed : Write → Board → Board
changed (patch_restore_status old new) c = record c { status = new.status }
changed (create_or_update_config_map k content owner) c = record c {
  configs = λ n. if same_key k n then content else c.configs n;
}
changed _ c = c

abbrev board : LitestreamReplica → Client Board
board db = record {
  get_restore = λ n. λ c. if same_key n (key "undo") then ok (undo_at c.status) else err missing;
  get_replica = λ n. λ c. if same_key n (key "orders") then ok db else err missing;
  get_deployment = λ n. λ c. ok (workload 1 1);
  get_stateful_set = λ n. λ c. err missing;
  get_config_map = λ n. λ c. ok (record { metadata = meta n.name []; content = c.configs n });
  get_job = λ n. λ c. err missing;
  list_pods = λ ns. λ labels. λ c. ok [];
  select_pods = λ ns. λ selector. λ c. ok [];
  has_kube_client = false;
  open_log = λ n. λ lines. λ c. err missing;
  read_log = λ stream. λ c. err missing;
  set_controller_reference = λ o. λ j. ok j;
  send = λ x. λ c. (none, changed x c);
  refreshed = λ db. λ c. db;
  now = λ c. 42;
}

board-IsCalm : (db : LitestreamReplica) → IsCalm (board db)
board-IsCalm db = record { sends = λ x c. refl; owns = λ o j. tt }

changed_configs :
    (x : Write) (c : Board) (n : NamespacedName)
    → writes_config n x ≡ false
    → (changed x c).configs n ≡ c.configs n
changed_configs x c n w = ground (arith, w)

board-IsServing :
    (db : LitestreamReplica) → replica_key db ≡ key "orders" → IsServing (board db) (key "orders")
board-IsServing db named = record {
  stores_config = λ n content owner c e. rw (same_key_self n) refl;
  keeps_others = λ x c w.
      ap (λ d. ok (record { metadata = meta "orders-litestream" []; content = d }))
        (changed_configs x c (config_of (key "orders")) w);
  found_named = λ c other g. ground (arith, g, named);
  keeps_source = λ x c f. f;
}

orders_paused : has_annotation paused_orders annotation_pause ≡ true
unfolding has_annotation
orders_paused = refl

orders_unpaused : has_annotation orders annotation_pause ≡ false
unfolding has_annotation
orders_unpaused = refl

changed_status :
    (x : Write) (c : Board) → is_status_patch x ≡ false → (changed x c).status ≡ c.status
changed_status x c s = ground arith

paused_board-IsStore : IsStore (board paused_orders) (key "undo") (key "orders")
paused_board-IsStore = record {
  same_source = λ c r g. ground (arith, g);
  stores_status = λ old new c g a. ground (arith, g);
  keeps_restore = λ x c s. ap (λ t. ok (undo_at t)) (changed_status x c s);
  keeps_pause = λ x c l p. orders_paused;
  sets_pause = λ old new c g a s. orders_paused;
}

abbrev at : LitestreamRestoreStatus → Board
at status = record { status = status; configs = λ n. [] }

abbrev answer : LitestreamReplica → LitestreamRestoreStatus → Board
answer db s = answered (board db) (key "orders") store (λ t. t) (at s)

pausing-answered_example :
    written_phase
      (writes_of (board paused_orders) (undo_at paused_status) (answer paused_orders paused_status))
    ≡ some scaling_down
unfolding target_for_restore
pausing-answered_example =
    pausing-answered (board paused_orders) (key "orders") (board-IsCalm paused_orders)
      (board-IsServing paused_orders refl) store (λ t. t) (undo_at paused_status) refl
      (at paused_status) paused_orders paused_orders bucket refl refl refl (key "undo")
      paused_board-IsStore refl orders_paused tt

scaling_up-answered_example :
    written_phase
      (writes_of (board orders) (undo_at scaling_up_status) (answer orders scaling_up_status))
    ≡ some complete
scaling_up-answered_example =
    scaling_up-answered (board orders) (key "orders") (board-IsCalm orders)
      (board-IsServing orders refl) store (λ t. t) (undo_at scaling_up_status) refl
      (at scaling_up_status) orders orders bucket refl refl refl refl orders_unpaused
      orders_unpaused
