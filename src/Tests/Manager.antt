-- ===== src/Tests/Manager.antt =====
-- The theorems on the manager at examples: a platform where every call succeeds.
use sqlite_operator.Base.{ℕ, ◌≡◌, ◌↔◌, refl, true, Option, none, some, [], arith}
use sqlite_operator.Base.FilePath.{clean, join_path}
use sqlite_operator.Manager.Tls.{
  Flags, CertWatcher, TlsConfig, default_flags, webhook_certificate, apply_options,
}
use sqlite_operator.Manager.Calls.{Platform, ManagerOptions, new_manager, attempt, must, perform}
use sqlite_operator.Manager.Main.{
  init_schemes, watch_webhook_certificate, watch_metrics_certificate, set_up_controllers,
  set_up_webhooks, add_watcher, start_up, main,
}
use sqlite_operator.Manager.Plan.{plan, run_plan}
use sqlite_operator.Manager.Steps.{main-run_plan}
use sqlite_operator.Manager.Servers.{ServesOwn, expected, servers_serve_own_iff}
use sqlite_operator.Manager.Started.{any, MadeBefore, is_registration, injector-served}

abbrev calm : Platform
calm log x = none

-- A capacity that is just the length that is needed.
abbrev exact : ℕ → ℕ → ℕ
exact capacity length = length

abbrev flags : Flags
flags = record default_flags { webhook_cert_path = "/certs/"; metrics_cert_path = "/metrics" }

certificate_file : (webhook_certificate flags).cert_file ≡ "/certs/tls.crt"
unfolding webhook_certificate join_path clean
certificate_file = refl

registers : any is_registration (main calm exact flags []).1 ≡ true
unfolding main init_schemes watch_webhook_certificate watch_metrics_certificate set_up_controllers
    set_up_webhooks add_watcher start_up attempt must perform
registers = refl

main-run_plan_example : main calm exact flags [] ≡ run_plan calm (plan exact flags) []
main-run_plan_example = main-run_plan calm exact flags

injector-served_example :
    (o : ManagerOptions) × MadeBefore is_registration (new_manager o) (main calm exact flags []).1
    × ((c : TlsConfig)
        → apply_options o.webhook_opts c
          ≡ expected flags.enable_http2 (some (webhook_certificate flags)) c)
injector-served_example = injector-served calm exact flags refl registers

servers_serve_own_iff_example : (exact 0 1 ≡ 1) ↔ (
    (flags : Flags) (webhook metrics : Option CertWatcher) → ServesOwn exact flags webhook metrics)
servers_serve_own_iff_example = servers_serve_own_iff exact (omega arith)
