-- ===== src/Tests/Admissions.antt =====
-- A restore in ScalingUp on a cluster that merges patches of the source, and a pod of the source
-- behind it.
use sqlite_operator.Base.{
  ◌≡◌, refl, sym, ◌∙◌, Bool, true, false, none, some, [], ◌∷◌, if◌then◌else◌, pos, arith,
}
use sqlite_operator.Kube.Objects.{NamespacedName}
use sqlite_operator.Kube.Errors.{ok, err}
use sqlite_operator.Kube.Client.{Client, Write, patch_replica, start}
use sqlite_operator.Api.Replica.{LitestreamReplica, annotation_skip_archive_check}
use sqlite_operator.Workload.{target_for_restore}
use sqlite_operator.Restore.Annotations.{has_annotation, annotate}
use sqlite_operator.Restore.Phases.{reconcile_scaling_up}
use sqlite_operator.Restore.Reconcile.{reconcile_restore, dispatch, with_source, with_destination}
use sqlite_operator.Restore.Trace.{scale_targets, writes_of}
use sqlite_operator.Webhook.Injector.{any_named, archive_check_container_name, startup_containers}
use sqlite_operator.System.Admission.{leaves_skip, KeepsSkip, scaling_up-admits}
use sqlite_operator.Tests.Objects.{undo, replica, backup, orders, workload, config, missing}
use sqlite_operator.Tests.Runs.{scaling_up_status, undo_at}

abbrev key : NamespacedName
key = record { namespace = "apps"; name = "orders" }

abbrev skipped_orders : LitestreamReplica
skipped_orders = replica ((annotation_skip_archive_check, "true") ∷ []) backup

-- Whether the source has the annotation that skips the archive check.
record Gate : Type 0 where
  skips : Bool

abbrev merged : Write → Gate → Gate
merged (patch_replica old new) c = record {
  skips =
      if has_annotation new annotation_skip_archive_check
      then true
      else if has_annotation old annotation_skip_archive_check
      then false
      else c.skips;
}
merged _ c = c

abbrev gate : Client Gate
gate = record {
  get_restore = λ n. λ c. ok undo;
  get_replica = λ n. λ c. ok (if c.skips then skipped_orders else orders);
  get_deployment = λ n. λ c. ok (workload 0 0);
  get_stateful_set = λ n. λ c. err missing;
  get_config_map = λ n. λ c. ok (config "addr: \":9090\"\n");
  get_job = λ n. λ c. err missing;
  list_pods = λ ns. λ labels. λ c. ok [];
  select_pods = λ ns. λ selector. λ c. ok [];
  has_kube_client = false;
  open_log = λ n. λ lines. λ c. err missing;
  read_log = λ stream. λ c. err missing;
  set_controller_reference = λ o. λ j. ok j;
  send = λ x. λ c. (none, merged x c);
  refreshed = λ db. λ c. db;
  now = λ c. 42;
}

abbrev closed : Gate
closed = record { skips = false }

read_skips :
    (b : Bool)
    → has_annotation (if b then skipped_orders else orders) annotation_skip_archive_check ≡ b
unfolding has_annotation
read_skips true = refl
read_skips false = refl

merged_skips :
    (x : Write) (c : Gate) → leaves_skip x ≡ true → c.skips ≡ true → (merged x c).skips ≡ true
merged_skips x c l p = ground arith

gate-KeepsSkip : KeepsSkip gate key
gate-KeepsSkip = record {
  keeps_skip = λ x c l p. read_skips _ ∙ merged_skips x c l (sym (read_skips c.skips) ∙ p);
  sets_skip = λ old new c g a s. read_skips _ ∙ rw a refl;
}

scales : scale_targets (writes_of gate (undo_at scaling_up_status) closed) ≡ some (pos 1) ∷ []
unfolding reconcile_restore with_source with_destination dispatch reconcile_scaling_up
    has_annotation annotate target_for_restore
scales = refl

opened :
    gate.get_replica key
      (reconcile_restore gate (undo_at scaling_up_status) (start closed)).1.cluster
    ≡ ok skipped_orders
unfolding reconcile_restore with_source with_destination dispatch reconcile_scaling_up
    has_annotation annotate target_for_restore
opened = refl

scaling_up-admits_example :
    any_named archive_check_container_name (startup_containers skipped_orders "data") ≡ false
scaling_up-admits_example =
    scaling_up-admits gate key gate-KeepsSkip (undo_at scaling_up_status) orders refl closed
      skipped_orders "data" refl refl (λ e. cc (sym scales ∙ e)) opened
