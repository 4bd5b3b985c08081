-- ===== src/Webhook/Injector.antt =====
-- internal/webhook/sidecar_injector.go: the mutating webhook for pods.
mod Containers
unfoldable pub use Containers.*
use text.Mathlib.Text.{starts_with}
use sqlite_operator.Base.{
  ℕ, String, ◌<>◌, Bool, true, false, not, ◌||◌, Option, none, some, List, [], ◌∷◌, ◌++◌, ◌==◌,
  if◌then◌else◌,
}
use sqlite_operator.Base.Strings.{quote, cut_slash}
use sqlite_operator.Base.Dict.{Dict, index, insert}
use sqlite_operator.Kube.Objects.{NamespacedName, VolumeMount, Container, Volume, config_map, Pod}
use sqlite_operator.Kube.Errors.{Err, Result, ok, err, wrapped, plain}
use sqlite_operator.Api.Replica.{LitestreamReplica, annotation_inject, annotation_config}

-- `alreadyInjected`: a container has the sidecar's name.
abbrev pub any_named : String → List Container → Bool
any_named name [] = false
any_named name (c ∷ cs) = c.name == name || any_named name cs

unfoldable pub already_injected : Pod → Bool
already_injected pod = any_named litestream_container_name pod.spec.containers

-- Whether a mount covers the path of the database.
abbrev pub covers : String → VolumeMount → Bool
covers db_path vm = vm.mount_path == db_path || starts_with db_path (vm.mount_path <> "/")

unfoldable pub find_mount : String → List VolumeMount → Option VolumeMount
find_mount db_path [] = none
find_mount db_path (vm ∷ vms) = if covers db_path vm then some vm else find_mount db_path vms

abbrev found_volume : String → String → Option VolumeMount → Result String
found_volume container db_path (some vm) = ok vm.name
found_volume container db_path none = err (
    plain (
      "no volume mount in container "
      <> quote container
      <> " covers database path "
      <> quote db_path
      <> "; ensure the application mounts a volume at "
      <> quote db_path))

-- `findVolumeForPath`, on the containers of the pod
unfoldable pub find_volume_for_path : List Container → String → Result String
find_volume_for_path [] db_path = err (plain "pod has no containers")
find_volume_for_path (c ∷ cs) db_path =
    found_volume c.name db_path (find_mount db_path c.volume_mounts)

abbrev config_volume : String → String → Volume
config_volume name cm = record { name = name; source = config_map cm }

abbrev pub init_volumes : LitestreamReplica → List Volume
init_volumes db =
    if db.spec.init_sql == ""
    then []
    else config_volume db_init_sql_volume (db.metadata.name <> "-init-sql") ∷ []

-- The annotations by which a monitor finds the metrics.
unfoldable pub with_scrape : Dict → Dict
unfolding insert
with_scrape m =
    insert "prometheus.io/path" "/metrics"
      (insert "prometheus.io/port" "9090" (insert "prometheus.io/scrape" "true" m))

-- The pod with the sidecar, over the volume that was found.
unfoldable pub inject_over : Pod → LitestreamReplica → String → Pod
unfolding with_scrape
inject_over pod db volume = record pod {
  metadata = record (pod.metadata) { annotations = with_scrape pod.metadata.annotations };
  spec = record (pod.spec) {
    containers = pod.spec.containers ++ (sidecar db volume ∷ []);
    init_containers =
        startup_containers db volume ++ (pod.spec.init_containers ++ init_containers db volume);
    volumes =
        pod.spec.volumes
        ++ (config_volume litestream_config_volume (db.metadata.name <> "-litestream")
            ∷ init_volumes db);
  };
}

-- `inject`
unfoldable pub inject : Pod → LitestreamReplica → Result Pod
inject pod db = elim (find_volume_for_path pod.spec.containers db.spec.database_path) [
  | ok volume ↦ ok (inject_over pod db volume)
  | err e ↦ err e
]

-- Encoding and decoding of pods, which the webhook library does.
pub record Codec (Raw : Type 0) : Type 0 where
  pub decode : Raw → Result Pod
  pub marshal : Pod → Result Raw

pub record Request (Raw : Type 0) : Type 0 where
  pub object : Raw
  pub namespace : String

pub data Response (Raw : Type 0) : Type 0 where
  errored : ℕ → Err → Response Raw
  allowed : String → Response Raw
  -- `admission.PatchResponseFromRaw(original, changed)`
  patched : Raw → Raw → Response Raw

module _ {Raw : Type 0} (codec : Codec Raw)
    (get_replica : NamespacedName → Result LitestreamReplica) where
  abbrev pub looked_up :
      String → String → Result LitestreamReplica → Result (Option LitestreamReplica)
  looked_up ns name (ok db) = ok (some db)
  looked_up ns name (err e) = err (wrapped ("getting LitestreamReplica " <> ns <> "/" <> name) e)

  abbrev pub default_namespace : String → String → String
  default_namespace ns pod_namespace = if ns == "" then pod_namespace else ns

  abbrev resolve_cut :
      String → String → Option (String × String) → Result (Option LitestreamReplica)
  resolve_cut ref pod_namespace none = err (
      plain (
        "malformed "
        <> annotation_config
        <> " annotation "
        <> quote ref
        <> ": expected namespace/name"))
  resolve_cut ref pod_namespace (some (ns, name)) =
      let namespace = default_namespace ns pod_namespace in
      looked_up namespace name (get_replica (record { namespace = namespace; name = name }))

  -- `resolveLitestreamReplica`
  unfoldable pub resolve_litestream_replica : Pod → String → Result (Option LitestreamReplica)
  resolve_litestream_replica pod pod_namespace =
      let ref = index pod.metadata.annotations annotation_config in
      if ref == "" then ok none else resolve_cut ref pod_namespace (cut_slash ref)

  abbrev pub marshalled : Raw → Result Raw → Response Raw
  marshalled original (ok raw) = patched original raw
  marshalled original (err e) = errored 500 (wrapped "marshalling patched pod" e)

  abbrev pub injected : Raw → Result Pod → Response Raw
  injected original (ok pod) = marshalled original (codec.marshal pod)
  injected original (err e) = errored 500 (wrapped "injecting sidecar" e)

  abbrev pub resolved : Raw → Pod → Result (Option LitestreamReplica) → Response Raw
  resolved original pod (err e) = errored 500 e
  resolved original pod (ok none) = allowed "no LitestreamReplica config reference found"
  resolved original pod (ok (some db)) = injected original (inject pod db)

  unfoldable pub handle_pod : Request Raw → Pod → Response Raw
  handle_pod req pod =
      if not (index pod.metadata.annotations annotation_inject == "true")
      then allowed "no injection annotation"
      else if already_injected pod
      then allowed "sidecar already present"
      else resolved req.object pod (resolve_litestream_replica pod req.namespace)

  abbrev decoded : Request Raw → Result Pod → Response Raw
  decoded req (ok pod) = handle_pod req pod
  decoded req (err e) = errored 400 (wrapped "decoding pod" e)

  -- `Handle`
  unfoldable pub handle : Request Raw → Response Raw
  handle req = decoded req (codec.decode req.object)
