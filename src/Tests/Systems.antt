-- ===== src/Tests/Systems.antt =====
-- A cluster with one restore and its source, and the turns that two controllers take on it.
use sqlite_operator.Base.{
  inl, inr, Bool-cases, ◌≢◌, ◌==◌, String, ◌≡◌, refl, ap, sym, ◌∙◌, Bool, true, false, none, List,
  [], ◌∷◌, if◌then◌else◌, arith,
}
use sqlite_operator.Kube.Objects.{NamespacedName}
use sqlite_operator.Kube.Errors.{Result, ok, err}
use sqlite_operator.Kube.Client.{
  create_or_update_config_map, Client, Write, patch_replica, patch_restore_status, start,
}
use sqlite_operator.Api.Replica.{LitestreamReplica, annotation_pause}
use sqlite_operator.Api.Restore.{LitestreamRestoreStatus}
use sqlite_operator.Config.{paused_config, litestream_config_key}
use sqlite_operator.Base.Dict.{index}
use sqlite_operator.System.Configs.{
  same_key_iff, same_key, KeepsConfigs, leaves_config, needs_config,
}
use sqlite_operator.System.Handover.{drains, Turns-held}
use sqlite_operator.Restore.Annotations.{replica_key, has_annotation, annotate}
use sqlite_operator.Restore.Phases.{
  is_paused_config, reconcile_pausing, scale_down, reconcile_pending, record_replicas, pause_with,
}
use sqlite_operator.Workload.{target_for_restore, target_workload, patch_workload_pod_template}
use sqlite_operator.Replica.ConfigMaps.{
  litestream_config, reconcile_litestream_config, reconcile_init_sql_config, clear_hash,
}
use sqlite_operator.Replica.Target.{reconcile_target_annotation, annotate_target, is_annotated}
use sqlite_operator.Replica.Status.{
  update_status, with_target, with_archive_check, judge_health, clear_if_healthy, announce,
}
use sqlite_operator.Replica.Pods.{
  archive_check_state, archive_state, litestream_container_state, sidecar_state,
}
use sqlite_operator.System.Replay.{
  AllAccepted, config_of, fits_config, is_status_patch, leaves_pause,
}
use sqlite_operator.Restore.Reconcile as Restores
use sqlite_operator.Replica.Reconcile as Replicas
use sqlite_operator.System.Quiet.{needs_pause}
use sqlite_operator.System.Store.{IsStore}
use sqlite_operator.System.Turns.{
  Turns, opened, restore_turn, replica_turn, restore_needs, Turns-paused,
}
use sqlite_operator.Restore.Life.{new_status}
use sqlite_operator.Tests.Objects.{orders, paused_orders, workload, config, missing}
use sqlite_operator.Tests.Stores.{store}
use sqlite_operator.Tests.Runs.{paused_status, undo_at}

abbrev key : String → NamespacedName
key name = record { namespace = "apps"; name = name }

-- The parts of the cluster that the pause is about.
record Pair : Type 0 where
  status : LitestreamRestoreStatus
  paused : Bool
  -- the ConfigMap of the source holds the paused text
  held : Bool

abbrev merged : Write → Pair → Pair
merged (patch_restore_status old new) c = record c { status = new.status }
merged (patch_replica old new) c = record c {
  paused =
      if has_annotation new annotation_pause
      then true
      else if has_annotation old annotation_pause
      then false
      else c.paused;
}
merged (create_or_update_config_map k content owner) c = record c {
  held =
      if same_key k (config_of (key "orders"))
      then index content litestream_config_key == paused_config
      else c.held;
}
merged _ c = c

abbrev pair_client : Client Pair
pair_client = record {
  get_restore = λ n. λ c. if same_key n (key "undo") then ok (undo_at c.status) else err missing;
  get_replica = λ n. λ c.
      if same_key n (key "orders")
      then ok (if c.paused then paused_orders else orders)
      else err missing;
  get_deployment = λ n. λ c. ok (workload 1 1);
  get_stateful_set = λ n. λ c. err missing;
  get_config_map = λ n. λ c. ok (config (if c.held then paused_config else ""));
  get_job = λ n. λ c. err missing;
  list_pods = λ ns. λ labels. λ c. ok [];
  select_pods = λ ns. λ selector. λ c. ok [];
  has_kube_client = false;
  open_log = λ n. λ lines. λ c. err missing;
  read_log = λ stream. λ c. err missing;
  set_controller_reference = λ o. λ j. ok j;
  send = λ x. λ c. (none, merged x c);
  refreshed = λ db. λ c. db;
  now = λ c. 42;
}

orders_paused : has_annotation paused_orders annotation_pause ≡ true
unfolding has_annotation
orders_paused = refl

orders_unpaused : has_annotation orders annotation_pause ≡ false
unfolding has_annotation
orders_unpaused = refl

read_paused : (b : Bool) → has_annotation (if b then paused_orders else orders) annotation_pause ≡ b
read_paused true = orders_paused
read_paused false = orders_unpaused

merged_status : (x : Write) (c : Pair) → is_status_patch x ≡ false → (merged x c).status ≡ c.status
merged_status x c s = ground arith

merged_paused :
    (x : Write) (c : Pair) → leaves_pause x ≡ true → c.paused ≡ true → (merged x c).paused ≡ true
merged_paused x c l p = ground arith

pair-IsStore : IsStore pair_client (key "undo") (key "orders")
pair-IsStore = record {
  same_source = λ c r g. ground (arith, g);
  stores_status = λ old new c g a. ground (arith, g);
  keeps_restore = λ x c s. ap (λ t. ok (undo_at t)) (merged_status x c s);
  keeps_pause = λ x c l p. read_paused _ ∙ merged_paused x c l (sym (read_paused c.paused) ∙ p);
  sets_pause = λ old new c g a s. read_paused _ ∙ rw a refl;
}

pair_accepts : (xs : List Write) (c : Pair) → AllAccepted pair_client xs c
pair_accepts [] c = tt
pair_accepts (x ∷ xs) c = (λ s. refl, pair_accepts xs c)

abbrev fresh : Pair
fresh = record { status = new_status; paused = false; held = false }

-- A reconcile of the new restore, and then one of its source.
abbrev begun : Pair
begun = (Restores.reconcile pair_client (key "undo") (start fresh)).1.cluster

abbrev shared : Pair
shared = (Replicas.reconcile pair_client store (λ s. s) (key "orders") (start begun)).1.cluster

fresh_needs_none : restore_needs pair_client (key "undo") fresh ≡ false
unfolding needs_pause
fresh_needs_none = refl

fresh_accepted :
    AllAccepted pair_client (Restores.reconcile pair_client (key "undo") (start fresh)).1.sent fresh
fresh_accepted = pair_accepts _ fresh

turns : Turns pair_client store (λ s. s) (key "undo") (key "orders") shared
turns = replica_turn (restore_turn (opened fresh fresh_needs_none) fresh_accepted) (key "orders")

-- The reconcile of the source has written its ConfigMap.
abbrev paused_pair : Pair
paused_pair = record { status = paused_status; paused = true; held = true }

shared_pair : shared ≡ paused_pair
unfolding Restores.reconcile Restores.reconcile_restore Restores.with_source
    Restores.with_destination Restores.dispatch reconcile_pending record_replicas target_for_restore
    pause_with has_annotation annotate Replicas.reconcile Replicas.reconcile_replica
    reconcile_litestream_config litestream_config reconcile_init_sql_config clear_hash
    reconcile_target_annotation annotate_target is_annotated patch_workload_pod_template
    update_status with_target target_workload with_archive_check archive_check_state archive_state
    judge_health clear_if_healthy litestream_container_state sidecar_state announce
shared_pair = refl

paused_needs : restore_needs pair_client (key "undo") paused_pair ≡ true
unfolding needs_pause
paused_needs = refl

shared_needs : restore_needs pair_client (key "undo") shared ≡ true
shared_needs = ap (restore_needs pair_client (key "undo")) shared_pair ∙ paused_needs

shared_source : pair_client.get_replica (key "orders") shared ≡ ok paused_orders
shared_source = ap (pair_client.get_replica (key "orders")) shared_pair

Turns-paused_example : litestream_config paused_orders ≡ paused_config
Turns-paused_example =
    Turns-paused pair_client store (λ s. s) (key "undo") (key "orders") pair-IsStore paused_orders
      turns shared_needs shared_source

held_text : (b : Bool) → is_paused_config (config (if b then paused_config else "")) ≡ b
unfolding index
held_text true = refl
held_text false = refl

merged_held :
    (x : Write) (c : Pair)
    → fits_config (leaves_config pair_client (key "orders")) x ≡ true
    → c.held ≡ true
    → (merged x c).held ≡ true
merged_held x c f h = ground arith

abbrev answer_key : Result LitestreamReplica → NamespacedName
answer_key (ok db) = replica_key db
answer_key (err e) = key "orders"

read_key : (b : Bool) → replica_key (if b then paused_orders else orders) ≡ key "orders"
read_key true = refl
read_key false = refl

pair-KeepsConfigs : KeepsConfigs pair_client (key "orders") (key "undo")
pair-KeepsConfigs = record {
  named = λ c req db g. elim (Bool-cases (same_key req (key "orders"))) [
    | inl t ↦
        sym (ap answer_key (rw t at g))
        ∙ read_key c.paused
        ∙ sym (same_key_iff req (key "orders") t)
    | inr f ↦ cc (rw f at g)
  ];
  restore_named = λ c r g. ground (arith, g);
  keeps_config = λ x c f h. held_text _ ∙ merged_held x c f (sym (held_text c.held) ∙ h);
}

abbrev drained_from : Pair → Pair
drained_from c = (Restores.reconcile pair_client (key "undo") (start c)).1.cluster

abbrev drained_pair : Pair
drained_pair = drained_from shared

drained_turns : Turns pair_client store (λ s. s) (key "undo") (key "orders") drained_pair
drained_turns = restore_turn turns (pair_accepts _ shared)

paused_drains : drains pair_client (key "undo") (drained_from paused_pair) ≡ true
unfolding Restores.reconcile needs_config Restores.reconcile_restore Restores.with_source
    Restores.with_destination Restores.dispatch reconcile_pausing scale_down target_for_restore
    has_annotation
paused_drains = refl

drained_drains : drains pair_client (key "undo") drained_pair ≡ true
drained_drains =
    ap (λ c. drains pair_client (key "undo") (drained_from c)) shared_pair ∙ paused_drains

paused_held : (drained_from paused_pair).held ≡ true
unfolding Restores.reconcile Restores.reconcile_restore Restores.with_source
    Restores.with_destination Restores.dispatch reconcile_pausing scale_down target_for_restore
    has_annotation
paused_held = refl

drained_held : drained_pair.held ≡ true
drained_held = ap (λ c. (drained_from c).held) shared_pair ∙ paused_held

drained_config :
    pair_client.get_config_map (config_of (key "orders")) drained_pair ≡ ok (config paused_config)
drained_config = rw drained_held refl

names_differ : key "undo" ≢ key "orders"
names_differ e = cc (ap (λ k. k.name) e)

Turns-held_example : is_paused_config (config paused_config) ≡ true
Turns-held_example =
    Turns-held pair_client store (λ s. s) (key "undo") (key "orders") pair-IsStore pair-KeepsConfigs
      names_differ (config paused_config) drained_turns drained_drains drained_config
