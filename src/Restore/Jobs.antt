-- ===== src/Restore/Jobs.antt =====
-- buildRestoreJob, buildValidationJob, s3EnvVars, restoreJobPodLogs and reconcileRestoreConfig.
use sqlite_operator.Base.{
  ℕ, String, ◌<>◌, Bool, true, false, ◌||◌, Option, none, some, List, [], ◌∷◌, ◌++◌, ◌==◌, pos,
  is_some, if◌then◌else◌,
}
use sqlite_operator.Base.Strings.{quote}
use sqlite_operator.Base.FilePath.{dir}
use sqlite_operator.Base.Dict.{Dict}
use sqlite_operator.Kube.Objects.{
  ObjectMeta, EnvVar, secret_key_ref, VolumeMount, SecurityContext, Volume, config_map,
  persistent_volume_claim, on_failure, never, Pod, Job,
}
use sqlite_operator.Kube.Errors.{Err, Result, ok, err}
use sqlite_operator.Kube.Client.{Client, create_or_update_config_map, restore_owner, M, send}
use sqlite_operator.Api.{litestream_default_image}
use sqlite_operator.Api.Replica.{S3Destination, LitestreamReplica}
use sqlite_operator.Api.Restore.{LitestreamRestore}
use sqlite_operator.Config.{litestream_config_key, database_file, build_litestream_config_yaml}

abbrev pub restore_label_key : String
restore_label_key = "litestream.io/restore"

abbrev pub restore_target_volume_name : String
restore_target_volume_name = "target"

abbrev pub secret_env : String → String → String → EnvVar
secret_env name secret_ref key = record {
  name = name;
  source = secret_key_ref (record { name = secret_ref; key = key });
}

-- `s3EnvVars`
unfoldable pub s3_env_vars : String → List EnvVar
s3_env_vars secret_ref =
    secret_env "LITESTREAM_ACCESS_KEY_ID" secret_ref "ACCESS_KEY_ID"
    ∷ secret_env "LITESTREAM_SECRET_ACCESS_KEY" secret_ref "SECRET_ACCESS_KEY"
    ∷ []

abbrev job_labels : LitestreamRestore → Dict
job_labels restore =
    ("app.kubernetes.io/managed-by", "litestream-operator")
    ∷ (restore_label_key, restore.metadata.name)
    ∷ []

abbrev job_metadata : LitestreamRestore → String → ObjectMeta
job_metadata restore job_name = record {
  name = job_name;
  namespace = restore.metadata.namespace;
  labels = job_labels restore;
  annotations = [];
  generation = 0;
}

abbrev target_volume : LitestreamRestore → Volume
target_volume restore = record {
  name = "target";
  source = persistent_volume_claim restore.spec.target_pvc;
}

abbrev target_mount : LitestreamRestore → VolumeMount
target_mount restore = record {
  name = restore_target_volume_name;
  mount_path = dir restore.spec.target_path;
  read_only = false;
}

-- The first text that is not empty, and else a default.
abbrev pub first_image : List String → String → String
first_image [] default = default
first_image (image ∷ images) default = if image == "" then first_image images default else image

abbrev security_context_of : LitestreamRestore → SecurityContext
security_context_of restore = record {
  run_as_user = restore.spec.run_as_user;
  run_as_group = restore.spec.run_as_group;
}

abbrev names_an_owner : LitestreamRestore → Bool
names_an_owner restore = is_some restore.spec.run_as_user || is_some restore.spec.run_as_group

-- What stands before the path of the database.
abbrev pub restore_options : LitestreamRestore → List String
restore_options restore =
    ("restore" ∷ "-config" ∷ "/etc/litestream/litestream.yml" ∷ "-o" ∷ restore.spec.target_path
      ∷ [])
    ++ (if restore.spec.force then "-force" ∷ [] else [])
    ++ (if restore.spec.timestamp == "" then [] else "-timestamp" ∷ restore.spec.timestamp ∷ [])

unfoldable pub restore_args : LitestreamRestore → LitestreamReplica → List String
restore_args restore source_db = restore_options restore ++ (database_file source_db ∷ [])

-- `buildRestoreJob`. The reconciler has seen that there is an S3 destination before it comes here.
unfoldable pub build_restore_job :
    LitestreamRestore → LitestreamReplica → S3Destination → String → Job
unfolding restore_args s3_env_vars
build_restore_job restore source_db s3 job_name = record {
  metadata = job_metadata restore job_name;
  backoff_limit = pos 3;
  template_labels = job_labels restore;
  pod_spec = record {
    restart_policy = on_failure;
    security_context = if names_an_owner restore then some (security_context_of restore) else none;
    init_containers = [];
    containers =
        record {
          name = "litestream-restore";
          image =
              first_image (restore.spec.image ∷ source_db.spec.image ∷ []) litestream_default_image;
          command = [];
          args = restore_args restore source_db;
          env = s3_env_vars s3.secret_ref;
          ports = [];
          volume_mounts =
              target_mount restore
              ∷ record {
                name = "litestream-config";
                mount_path = "/etc/litestream";
                read_only = true;
              }
              ∷ [];
          resources = record { limits = []; requests = [] };
          security_context = none;
        }
        ∷ [];
    volumes =
        target_volume restore
        ∷ record {
          name = "litestream-config";
          source = config_map (restore.metadata.name <> "-litestream");
        }
        ∷ [];
  };
  conditions = [];
}

abbrev pub validation_script : LitestreamRestore → String
validation_script restore =
    "result=$(sqlite3 "
    <> quote restore.spec.target_path
    <> " \"PRAGMA quick_check;\"); if [ \"$result\" = \"ok\" ]; then echo \"ok\"; exit 0; fi; echo \"integrity check failed: $result\"; exit 1"

-- `buildValidationJob`
unfoldable pub build_validation_job : LitestreamRestore → LitestreamReplica → String → Job
build_validation_job restore source_db job_name = record {
  metadata = job_metadata restore job_name;
  backoff_limit = pos 1;
  template_labels = job_labels restore;
  pod_spec = record {
    restart_policy = never;
    security_context =
        if names_an_owner restore
        then some (security_context_of restore)
        else some (record { run_as_user = some (pos 0); run_as_group = some (pos 0) });
    init_containers = [];
    containers =
        record {
          name = "db-integrity-check";
          image = first_image (source_db.spec.init_image ∷ []) "keinos/sqlite3:latest";
          command = "sh" ∷ "-c" ∷ validation_script restore ∷ [];
          args = [];
          env = [];
          ports = [];
          volume_mounts = target_mount restore ∷ [];
          resources = record { limits = []; requests = [] };
          security_context = none;
        }
        ∷ [];
    volumes = target_volume restore ∷ [];
  };
  conditions = [];
}

module _ {S : Type 0} (client : Client S) where
  abbrev log_text : Result String → String
  log_text (ok text) = text
  log_text (err e) = ""

  abbrev read_stream : S → Result ℕ → String
  read_stream c (ok stream) = log_text (client.read_log stream c)
  read_stream c (err e) = ""

  abbrev first_pod_log : S → String → Result (List Pod) → String
  first_pod_log c namespace (ok (pod ∷ pods)) =
      read_stream c
        (client.open_log (record { namespace = namespace; name = pod.metadata.name }) 30 c)
  first_pod_log c namespace _ = ""

  -- `restoreJobPodLogs`: the log of the first pod, "" on any error
  unfoldable pub restore_job_pod_logs : String → String → S → String
  restore_job_pod_logs namespace restore_name c =
      if client.has_kube_client
      then first_pod_log c namespace
          (client.select_pods namespace (restore_label_key <> "=" <> restore_name) c)
      else ""

  -- `reconcileRestoreConfig`
  unfoldable pub reconcile_restore_config : LitestreamRestore → LitestreamReplica → M S (Option Err)
  unfolding send
  reconcile_restore_config restore source_db = send client (
      create_or_update_config_map
        (record {
          namespace = restore.metadata.namespace;
          name = restore.metadata.name <> "-litestream";
        })
        ((litestream_config_key, build_litestream_config_yaml source_db) ∷ [])
        (restore_owner restore))
