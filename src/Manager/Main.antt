-- ===== src/Manager/Main.antt =====
-- The functions `init` and `main` of cmd/main.go, and the SetupWithManager of the controllers and of the
-- validating webhook.
use sqlite_operator.Base.{ℕ, Bool, true, false, not, Option, none, some, ◌==◌, if◌then◌else◌}
use sqlite_operator.Manager.Tls.{
  Flags, CertWatcher, webhook_certificate, metrics_certificate, webhook_tls_opts, metrics_tls_opts,
}
use sqlite_operator.Manager.Calls.{
  litestream_replica, litestream_restore, config_map, job, Controller, ManagerOptions,
  add_client_go_scheme, add_database_scheme, new_cert_watcher, get_config, new_manager,
  complete_controller, new_kube_client, complete_validator, register_injector, add_cert_watcher,
  add_healthz_check, add_readyz_check, start_manager, Call, Platform, Main, pure, ◌>>=◌, ◌>>◌,
  attempt, must, perform,
}

abbrev pub replica_controller : Controller
replica_controller = record {
  recorder = "litestreamreplica-controller";
  has_kube_client = false;
  reconciles = litestream_replica;
  owns = config_map;
  watches_pods = true;
  name = "litestreamreplica";
}

abbrev pub restore_controller : Controller
restore_controller = record {
  recorder = "litestreamrestore-controller";
  has_kube_client = true;
  reconciles = litestream_restore;
  owns = job;
  watches_pods = false;
  name = "litestreamrestore";
}

abbrev pub validator_setup : Call
validator_setup = complete_validator litestream_replica true

abbrev pub webhooks_enabled : Flags → Bool
webhooks_enabled flags = not (flags.webhook_cert_path == "")

module _ (grow : ℕ → ℕ → ℕ) where
  unfoldable pub manager_options : Flags → Option CertWatcher → Option CertWatcher → ManagerOptions
  manager_options flags webhook metrics = record {
    metrics = record {
      bind_address = flags.metrics_addr;
      secure_serving = flags.secure_metrics;
      has_filter = flags.secure_metrics;
      metrics_opts = metrics_tls_opts grow flags webhook metrics;
    };
    webhook_opts = webhook_tls_opts grow flags webhook metrics;
    health_probe_bind_address = flags.probe_addr;
    leader_election = flags.enable_leader_election;
    leader_election_id = "dc63c944.litestream.io";
  }

module _ (platform : Platform) where
  unfoldable pub init_schemes : Main Unit
  init_schemes = must platform add_client_go_scheme >> must platform add_database_scheme

  unfoldable pub watch_webhook_certificate : Flags → Main (Option CertWatcher)
  watch_webhook_certificate flags =
      if webhooks_enabled flags
      then (do
        attempt platform (new_cert_watcher (webhook_certificate flags))
        pure (some (webhook_certificate flags)))
      else pure none

  unfoldable pub watch_metrics_certificate : Flags → Main (Option CertWatcher)
  watch_metrics_certificate flags =
      if not (flags.metrics_cert_path == "")
      then (do
        attempt platform (new_cert_watcher (metrics_certificate flags))
        pure (some (metrics_certificate flags)))
      else pure none

  unfoldable pub set_up_controllers : Main Unit
  set_up_controllers = do
    attempt platform (complete_controller replica_controller)
    attempt platform new_kube_client
    attempt platform (complete_controller restore_controller)

  -- Both webhooks, where there is a certificate to serve them with.
  unfoldable pub set_up_webhooks : Flags → Main Unit
  set_up_webhooks flags =
      if webhooks_enabled flags
      then (do
        attempt platform validator_setup
        perform platform (register_injector "/mutate-core-v1-pod"))
      else pure tt

  unfoldable pub add_watcher : Option CertWatcher → Main Unit
  add_watcher none = pure tt
  add_watcher (some w) = attempt platform (add_cert_watcher w)

  unfoldable pub start_up : Main Unit
  start_up = do
    attempt platform (add_healthz_check "healthz")
    attempt platform (add_readyz_check "readyz")
    attempt platform start_manager

  unfoldable pub main : (ℕ → ℕ → ℕ) → Flags → Main Unit
  main grow flags = do
    init_schemes
    webhook ← watch_webhook_certificate flags
    metrics ← watch_metrics_certificate flags
    attempt platform get_config
    attempt platform (new_manager (manager_options grow flags webhook metrics))
    set_up_controllers
    set_up_webhooks flags
    add_watcher metrics
    add_watcher webhook
    start_up
