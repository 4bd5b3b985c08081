-- ===== src/Webhook/Injector/Containers.antt =====
-- internal/webhook/sidecar_injector.go: the sidecar and the init containers that are put into a pod.
use sqlite_operator.Base.{
  String, ◌<>◌, true, false, not, ◌||◌, Option, none, some, List, [], ◌∷◌, ◌++◌, ◌==◌, is_some,
  or_default, if◌then◌else◌,
}
use sqlite_operator.Base.Dict.{index}
use sqlite_operator.Kube.Objects.{
  ResourceRequirements, EnvVar, value, VolumeMount, SecurityContext, Container,
}
use sqlite_operator.Api.{litestream_default_image}
use sqlite_operator.Api.Replica.{LitestreamReplica, BackupSpec, annotation_skip_archive_check}
use sqlite_operator.Config.{database_file}
use sqlite_operator.Restore.Jobs.{secret_env, first_image}
use sqlite_operator.Webhook.Scripts.{archive_check_script, auto_restore_script, init_script}

abbrev pub litestream_container_name : String
litestream_container_name = "litestream"

abbrev pub litestream_config_volume : String
litestream_config_volume = "litestream-config"

abbrev pub litestream_config_mount : String
litestream_config_mount = "/etc/litestream"

abbrev pub archive_check_container_name : String
archive_check_container_name = "litestream-archive-check"

abbrev pub auto_restore_container_name : String
auto_restore_container_name = "litestream-restore"

abbrev pub db_init_container_name : String
db_init_container_name = "db-init"

abbrev pub db_init_sql_volume : String
db_init_sql_volume = "db-init-sql"

-- `litestreamResources`
abbrev pub litestream_resources : LitestreamReplica → ResourceRequirements
litestream_resources db =
    or_default db.spec.backup.resources
      (record { limits = ("ephemeral-storage", "1Gi") ∷ []; requests = [] })

abbrev pub config_mount : VolumeMount
config_mount = record {
  name = litestream_config_volume;
  mount_path = litestream_config_mount;
  read_only = true;
}

abbrev pub data_mount : String → LitestreamReplica → VolumeMount
data_mount volume db = record {
  name = volume;
  mount_path = db.spec.database_path;
  read_only = false;
}

-- `s3CredsEnvVars`
unfoldable pub s3_creds_env_vars : String → List EnvVar
s3_creds_env_vars secret_ref =
    secret_env "LITESTREAM_ACCESS_KEY_ID" secret_ref "ACCESS_KEY_ID"
    ∷ secret_env "LITESTREAM_SECRET_ACCESS_KEY" secret_ref "SECRET_ACCESS_KEY"
    ∷ []

-- The credentials of the destination, where there is one.
abbrev pub credentials : BackupSpec → List EnvVar
credentials backup = elim backup.destination.s3 [
  | none ↦ []
  | some s3 ↦ s3_creds_env_vars s3.secret_ref
]

abbrev pub log_level_env : BackupSpec → List EnvVar
log_level_env backup =
    if backup.log_level == ""
    then []
    else record { name = "LITESTREAM_LOG_LEVEL"; source = value backup.log_level } ∷ []

unfoldable pub sidecar : LitestreamReplica → String → Container
unfolding s3_creds_env_vars
sidecar db volume = record {
  name = litestream_container_name;
  image = first_image (db.spec.image ∷ []) litestream_default_image;
  command = [];
  args = "replicate" ∷ "-config" ∷ "/etc/litestream/litestream.yml" ∷ [];
  env =
      (if db.spec.backup.enabled then credentials db.spec.backup else [])
      ++ log_level_env db.spec.backup;
  ports = record { name = "metrics"; container_port = 9090; protocol = "TCP" } ∷ [];
  volume_mounts = data_mount volume db ∷ config_mount ∷ [];
  resources = litestream_resources db;
  security_context = none;
}

abbrev pub owner_context : LitestreamReplica → Option SecurityContext
owner_context db =
    if is_some db.spec.run_as_user || is_some db.spec.run_as_group
    then some (record { run_as_user = db.spec.run_as_user; run_as_group = db.spec.run_as_group })
    else none

abbrev pub no_resources : ResourceRequirements
no_resources = record { limits = []; requests = [] }

-- `buildLitestreamInitContainer`
abbrev pub build_litestream_init_container :
    String → String → LitestreamReplica → String → Container
build_litestream_init_container name script db volume = record {
  name = name;
  image = first_image (db.spec.image ∷ []) litestream_default_image;
  command = "sh" ∷ "-c" ∷ script ∷ [];
  args = [];
  env = credentials db.spec.backup;
  ports = [];
  volume_mounts = data_mount volume db ∷ config_mount ∷ [];
  resources = no_resources;
  security_context = owner_context db;
}

abbrev pub state_dir : LitestreamReplica → String
state_dir db = db.spec.database_path <> "/." <> db.spec.database_name <> "-litestream"

unfoldable pub archive_check_container : LitestreamReplica → String → Container
unfolding s3_creds_env_vars
archive_check_container db volume =
    build_litestream_init_container archive_check_container_name
      (archive_check_script (database_file db) (state_dir db)) db volume

unfoldable pub auto_restore_container : LitestreamReplica → String → Container
unfolding s3_creds_env_vars
auto_restore_container db volume =
    build_litestream_init_container auto_restore_container_name
      (auto_restore_script (database_file db)) db volume

unfoldable pub init_container : LitestreamReplica → String → Container
init_container db volume = record {
  name = db_init_container_name;
  image = first_image (db.spec.init_image ∷ []) "keinos/sqlite3:latest";
  command = "sh" ∷ "-c" ∷ init_script db.spec.database_path (database_file db) ∷ [];
  args = [];
  env = [];
  ports = [];
  volume_mounts =
      data_mount volume db
      ∷ record { name = db_init_sql_volume; mount_path = "/init"; read_only = true }
      ∷ [];
  resources = no_resources;
  security_context = owner_context db;
}

-- The init container that comes first: by the kind of start-up that the backup asks for.
unfoldable pub startup_containers : LitestreamReplica → String → List Container
unfolding index
startup_containers db volume =
    if db.spec.backup.enabled
    then (if db.spec.backup.auto_restore
        then auto_restore_container db volume ∷ []
        else if not (index db.metadata.annotations annotation_skip_archive_check == "true")
        then archive_check_container db volume ∷ []
        else [])
    else []

unfoldable pub init_containers : LitestreamReplica → String → List Container
init_containers db volume = if db.spec.init_sql == "" then [] else init_container db volume ∷ []
