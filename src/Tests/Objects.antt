-- ===== src/Tests/Objects.antt =====
-- Example objects, and a client whose cluster is a record of what it answers.
use sqlite_operator.Base.{ℕ, String, true, false, none, some, [], ◌∷◌, pos}
use sqlite_operator.Base.Dict.{Dict}
use sqlite_operator.Kube.Objects.{ObjectMeta, WorkloadObject, ConfigMap, Job, job_complete, never}
use sqlite_operator.Kube.Errors.{Err, Result, ok, err, api_error, not_found}
use sqlite_operator.Kube.Client.{Client, Write, patch_replica, patch_workload, create_job}
use sqlite_operator.Api.Replica.{
  LitestreamReplica, LitestreamReplicaStatus, LitestreamReplicaSpec, BackupSpec, S3Destination,
  Phase, annotation_pause,
}
use sqlite_operator.Api.Restore.{RestorePhase, LitestreamRestore, LitestreamRestoreSpec}
use sqlite_operator.Config.{paused_config, litestream_config_key}
use sqlite_operator.Workload.{object}
use sqlite_operator.Restore.Life.{new_status}

abbrev pub meta : String → Dict → ObjectMeta
meta name annotations = record {
  name = name;
  namespace = "apps";
  labels = [];
  annotations = annotations;
  generation = 1;
}

abbrev pub bucket : S3Destination
bucket = record {
  endpoint = "minio:9000";
  bucket = "backups";
  path = "orders/";
  secret_ref = "creds";
}

abbrev pub backup : BackupSpec
backup = record {
  enabled = true;
  destination = record { s3 = some bucket };
  retention = record { duration = "24h" };
  sync_interval = "";
  log_level = "";
  resources = none;
  auto_restore = false;
}

abbrev pub replica_spec : BackupSpec → LitestreamReplicaSpec
replica_spec b = record {
  database_name = "orders.db";
  database_path = "/data";
  target_deployment = "orders";
  target_stateful_set = "";
  image = "";
  backup = b;
  init_sql = "";
  init_image = "";
  run_as_user = none;
  run_as_group = none;
}

abbrev new_replica_status : LitestreamReplicaStatus
new_replica_status = record {
  phase = Phase.no_phase;
  ready = false;
  backup_healthy = false;
  last_backup = none;
  replication_lag = "";
  init_sql_hash = "";
  observed_generation = 0;
  conditions = [];
}

abbrev pub replica : Dict → BackupSpec → LitestreamReplica
replica annotations b = record {
  metadata = meta "orders" annotations;
  spec = replica_spec b;
  status = new_replica_status;
}

abbrev pub orders : LitestreamReplica
orders = replica [] backup

abbrev pub paused_orders : LitestreamReplica
paused_orders = replica ((annotation_pause, "true") ∷ []) backup

abbrev pub workload : ℕ → ℕ → WorkloadObject
workload desired running = record {
  metadata = meta "orders" [];
  replicas = some (pos desired);
  selector_labels = [];
  template_labels = [];
  template_annotations = [];
  status_replicas = pos running;
  ready_replicas = pos running;
}

abbrev pub config : String → ConfigMap
config text = record {
  metadata = meta "orders-litestream" [];
  content = (litestream_config_key, text) ∷ [];
}

abbrev pub completed_job : Job
completed_job = record {
  metadata = meta "undo-restore" [];
  backoff_limit = pos 3;
  template_labels = [];
  pod_spec = record {
    restart_policy = never;
    security_context = none;
    init_containers = [];
    containers = [];
    volumes = [];
  };
  conditions = record { type = job_complete; holds = true; message = "" } ∷ [];
}

abbrev pub restore_spec : LitestreamRestoreSpec
restore_spec = record {
  source_ref = "orders";
  target_pvc = "orders-data";
  target_path = "/data/orders.db";
  timestamp = "";
  image = "";
  force = true;
  run_as_user = none;
  run_as_group = none;
}

abbrev pub undo : LitestreamRestore
undo = record { metadata = meta "undo" []; spec = restore_spec; status = new_status }

abbrev pub undo_in : RestorePhase → LitestreamRestore
undo_in p = record undo {
  status = record new_status {
    phase = p;
    job_name = "undo-restore";
    original_replicas = some (pos 1);
    start_time = some 7;
  };
}

abbrev pub missing : Err
missing = api_error not_found "not found"

-- What the client of the examples answers.
pub record Cluster : Type 0 where
  pub source : Result LitestreamReplica
  pub deployment : Result WorkloadObject
  pub config_map : Result ConfigMap
  pub job : Result Job

-- Patches of the source and of the workload, and created Jobs, are there at the next read.
abbrev stored : Write → Cluster → Cluster
stored (patch_replica old new) c = record c { source = ok new }
stored (patch_workload old new) c = record c { deployment = ok (object new) }
stored (create_job job) c = record c { job = ok job }
stored _ c = c

abbrev pub fake : Client Cluster
fake = record {
  get_restore = λ n. λ c. ok undo;
  get_replica = λ n. λ c. c.source;
  get_deployment = λ n. λ c. c.deployment;
  get_stateful_set = λ n. λ c. err missing;
  get_config_map = λ n. λ c. c.config_map;
  get_job = λ n. λ c. c.job;
  list_pods = λ ns. λ labels. λ c. ok [];
  select_pods = λ ns. λ selector. λ c. ok [];
  has_kube_client = false;
  open_log = λ n. λ lines. λ c. err missing;
  read_log = λ stream. λ c. err missing;
  set_controller_reference = λ o. λ j. ok j;
  send = λ x. λ c. (none, stored x c);
  refreshed = λ db. λ c. db;
  now = λ c. 42;
}

-- Before a restore, while it is paused, once no pod is left, and with a Job that is done.
abbrev pub serving : Cluster
serving = record {
  source = ok orders;
  deployment = ok (workload 1 1);
  config_map = ok (config "addr: \":9090\"\n");
  job = err missing;
}

abbrev pub pausing_cluster : Cluster
pausing_cluster = record serving {
  source = ok paused_orders;
  config_map = ok (config paused_config);
}

abbrev pub drained : Cluster
drained = record pausing_cluster { deployment = ok (workload 0 0) }

abbrev pub restored : Cluster
restored = record drained { job = ok completed_job }

abbrev pub unpaused : Cluster
unpaused = record restored { config_map = ok (config "addr: \":9090\"\n") }
