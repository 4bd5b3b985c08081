-- ===== src/Tests/Controllers.antt =====
-- The theorems on the replica controller at examples.
use sqlite_operator.Base.{◌≡◌, ◌↔◌, refl, true, false, none, some, [], ◌∷◌, pos}
use sqlite_operator.Base.Dict.{Dict}
use sqlite_operator.Kube.Errors.{Result, ok}
use sqlite_operator.Kube.Objects.{Pod, ContainerStatus, always, NamespacedName, WorkloadObject}
use sqlite_operator.Kube.Client.{Client, start, deployment}
use sqlite_operator.Api.Replica.{
  LitestreamReplica, annotation_inject, annotation_config, annotation_skip_archive_check,
}
use sqlite_operator.Workload.{target_workload}
use sqlite_operator.Restore.Annotations.{has_annotation}
use sqlite_operator.Restore.Trace.{patches_replica}
use sqlite_operator.Webhook.Injector.{Codec}
use sqlite_operator.Replica.Pods.{
  sidecar_state, archive_state, litestream_container_state, archive_check_state,
}
use sqlite_operator.Replica.Status.{
  update_status, with_target, with_archive_check, judge_health, announce, clear_if_healthy,
}
use sqlite_operator.Replica.Health.{any_sidecar, is_running, is_failing, sidecar_state_iff}
use sqlite_operator.Replica.Readiness.{WritesReport, update_status-Reports}
use sqlite_operator.Replica.Writes.{SeesHealth, update_status-patches_replica}
use sqlite_operator.Tests.Objects.{meta, backup, replica, orders, workload, fake, Cluster, serving}
use sqlite_operator.Tests.Stores.{store, store-IsLawful}

abbrev reference : Dict
reference = (annotation_inject, "true") ∷ (annotation_config, "apps/orders") ∷ []

abbrev marked_workload : WorkloadObject
marked_workload = record (workload 1 1) {
  template_annotations = reference;
  template_labels = (annotation_inject, "true") ∷ [];
}

abbrev running_sidecar : ContainerStatus
running_sidecar = record {
  name = "litestream";
  state = record { running = true; waiting = none; terminated = none };
}

abbrev stopped_check : ContainerStatus
stopped_check = record {
  name = "litestream-archive-check";
  state = record { running = false; waiting = none; terminated = some (pos 1) };
}

abbrev pub pod : Pod
pod = record {
  metadata = meta "orders-0" reference;
  spec = record {
    restart_policy = always;
    security_context = none;
    init_containers = [];
    containers = [];
    volumes = [];
  };
  init_container_statuses = [];
  container_statuses = running_sidecar ∷ [];
}

abbrev blocked_pod : Pod
blocked_pod = record pod { init_container_statuses = stopped_check ∷ []; container_statuses = [] }

abbrev with_pods : Client Cluster
with_pods = record fake { list_pods = λ ns. λ labels. λ c. ok (pod ∷ []) }

-- A LitestreamReplica whose next archive check is to be skipped.
abbrev skipping : LitestreamReplica
skipping = replica ((annotation_skip_archive_check, "true") ∷ []) backup

abbrev marked : Cluster
marked = record serving { deployment = ok marked_workload; source = ok skipping }

update_status-Reports_example :
    WritesReport with_pods store orders marked
      (update_status with_pods store orders (start marked)).1
update_status-Reports_example = update_status-Reports with_pods store orders marked store-IsLawful

abbrev crowded : Cluster
crowded = record serving { deployment = ok (workload 3 3) }

crowded_target : target_workload fake orders crowded ≡ ok (deployment (workload 3 3))
unfolding target_workload
crowded_target = refl

clears : patches_replica (update_status with_pods store skipping (start marked)).1.sent ≡ true
unfolding update_status with_target target_workload with_archive_check archive_check_state
    archive_state judge_health clear_if_healthy litestream_container_state sidecar_state
    has_annotation announce
clears = refl

update_status-patches_replica_example : SeesHealth with_pods store skipping marked
update_status-patches_replica_example =
    update_status-patches_replica with_pods store skipping marked clears

sidecar_state_iff_example :
    ((sidecar_state (ok (pod ∷ []))).0 ≡ true)
    ↔ ((any_sidecar is_running (pod ∷ []) ≡ true) × (any_sidecar is_failing (pod ∷ []) ≡ false))
sidecar_state_iff_example = sidecar_state_iff (pod ∷ [])

abbrev pub plain_codec : Codec Pod
plain_codec = record { decode = λ p. ok p; marshal = λ p. ok p }

abbrev pub found : NamespacedName → Result LitestreamReplica
found n = ok orders
