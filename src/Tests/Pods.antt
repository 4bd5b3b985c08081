-- ===== src/Tests/Pods.antt =====
-- The theorems on the mutating webhook at examples.
use sqlite_operator.Base.{◌≡◌, ◌≢◌, ◌↔◌, String, refl, sym, true, false, none, some, List, [], ◌∷◌}
use sqlite_operator.Base.Strings.{cut_slash}
use sqlite_operator.Base.Dict.{index}
use sqlite_operator.Kube.Objects.{Container, VolumeMount, Pod, always, NamespacedName}
use sqlite_operator.Kube.Errors.{Result, ok}
use sqlite_operator.Api.Replica.{
  LitestreamReplica, annotation_inject, annotation_config, annotation_skip_archive_check,
}
use sqlite_operator.Webhook.Scripts.Runs.{Volumes, RestoreAnswer}
use sqlite_operator.Webhook.Injector.{
  already_injected, any_named, archive_check_container_name, startup_containers, inject_over,
  inject, find_mount, find_volume_for_path, Codec, Request, allowed, patched,
  resolve_litestream_replica, handle_pod, handle,
}
use sqlite_operator.Webhook.Injection.{handle-patched}
use sqlite_operator.Webhook.Patched.{IsPatched, handle_pod-patched}
use sqlite_operator.Webhook.Startup.{startup_containers_iff}
use sqlite_operator.Webhook.Reference.{cut_slash-append}
use sqlite_operator.Tests.Objects.{meta, backup, replica, orders}

abbrev mounts : List VolumeMount
mounts =
    record { name = "logs"; mount_path = "/logs"; read_only = false }
    ∷ record { name = "data"; mount_path = "/data"; read_only = false }
    ∷ []

abbrev app : Container
app = record {
  name = "app";
  image = "orders:1";
  command = [];
  args = [];
  env = [];
  ports = [];
  volume_mounts = mounts;
  resources = record { limits = []; requests = [] };
  security_context = none;
}

abbrev pod : Pod
pod = record {
  metadata =
      meta "orders-0" ((annotation_inject, "true") ∷ (annotation_config, "apps/orders") ∷ []);
  spec = record {
    restart_policy = always;
    security_context = none;
    init_containers = [];
    containers = app ∷ [];
    volumes = [];
  };
  init_container_statuses = [];
  container_statuses = [];
}

-- Pods that stand for their own encoding.
abbrev plain_codec : Codec Pod
plain_codec = record { decode = λ p. ok p; marshal = λ p. ok p }

abbrev found : NamespacedName → Result LitestreamReplica
found n = ok orders

abbrev request : Request Pod
request = record { object = pod; namespace = "apps" }

pod_is_patched :
    handle_pod plain_codec found request pod ≡ patched pod (inject_over pod orders "data")
unfolding handle_pod index already_injected resolve_litestream_replica cut_slash inject
    find_volume_for_path find_mount
pod_is_patched = refl

handle_pod-patched_example : IsPatched plain_codec found request pod (inject_over pod orders "data")
handle_pod-patched_example =
    handle_pod-patched plain_codec found request pod pod (inject_over pod orders "data")
      pod_is_patched

handle-patched_example :
    handle plain_codec found (record request { object = inject_over pod orders "data" })
    ≡ allowed "sidecar already present"
handle-patched_example =
    handle-patched plain_codec found request pod pod (inject_over pod orders "data")
      (λ p. λ r. λ e. sym e) pod_is_patched

abbrev data_mount : VolumeMount
data_mount = record { name = "data"; mount_path = "/data"; read_only = false }

abbrev db_path : String
db_path = "/data/db"

-- A LitestreamReplica that restores on start.
abbrev restoring : LitestreamReplica
restoring = replica [] (record backup { auto_restore = true })

startup_containers_iff_example :
    (any_named archive_check_container_name (startup_containers orders "data") ≡ true)
    ↔ ((true ≡ true) × (false ≡ false) × (index [] annotation_skip_archive_check ≢ "true"))
startup_containers_iff_example = startup_containers_iff orders "data"

abbrev wiped : Volumes
wiped = record { has_database = false; has_state_dir = false }

abbrev nothing_restored : RestoreAnswer
nothing_restored = record { exit_code = 0; has_output = false }

abbrev written : RestoreAnswer
written = record { exit_code = 0; has_output = true }

reference_is_cut : cut_slash "apps/orders" ≡ some ("apps", "orders")
reference_is_cut = cut_slash-append "apps" "orders" (refl, (refl, (refl, (refl, tt))))

refers : index pod.metadata.annotations annotation_config ≡ "apps/orders"
unfolding index
refers = refl
