-- ===== src/Manager/Plan.antt =====
-- What the process does, against the list of calls that the flags ask for.
use sqlite_operator.Base.{ℕ, Option, none, some, List, [], ◌∷◌, ◌++◌, if◌then◌else◌, ◌==◌}
use sqlite_operator.Kube.Errors.{Err}
use sqlite_operator.Manager.Tls.{Flags, CertWatcher, webhook_certificate, metrics_certificate}
use sqlite_operator.Manager.Calls.{
  add_client_go_scheme, add_database_scheme, new_cert_watcher, get_config, new_manager,
  complete_controller, new_kube_client, register_injector, add_cert_watcher, add_healthz_check,
  add_readyz_check, start_manager, Call, Platform, Main, Ending, going, exited, panicked, pure,
  continue,
}
use sqlite_operator.Manager.Main.{
  validator_setup, replica_controller, restore_controller, manager_options,
}

-- The certificates that are given, if any.
abbrev pub webhook_watcher : Flags → Option CertWatcher
webhook_watcher flags =
    if flags.webhook_cert_path == "" then none else some (webhook_certificate flags)

abbrev pub metrics_watcher : Flags → Option CertWatcher
metrics_watcher flags =
    if flags.metrics_cert_path == "" then none else some (metrics_certificate flags)

abbrev pub each : Option CertWatcher → (CertWatcher → List Call) → List Call
each none f = []
each (some w) f = f w

-- The lists of a list, one after the other, and a last one.
abbrev concat : List (List Call) → List Call → List Call
concat [] last = last
concat (l ∷ ls) last = l ++ concat ls last

-- The calls that need the manager.
abbrev pub registrations : Flags → List Call
registrations flags =
    concat
      ((complete_controller replica_controller
          ∷ new_kube_client
          ∷ complete_controller restore_controller
          ∷ [])
        ∷ each (webhook_watcher flags)
            (λ w. validator_setup ∷ register_injector "/mutate-core-v1-pod" ∷ [])
        ∷ each (metrics_watcher flags) (λ w. add_cert_watcher w ∷ [])
        ∷ each (webhook_watcher flags) (λ w. add_cert_watcher w ∷ [])
        ∷ [])
      (add_healthz_check "healthz" ∷ add_readyz_check "readyz" ∷ start_manager ∷ [])

abbrev pub manager_call : (ℕ → ℕ → ℕ) → Flags → Call
manager_call grow flags =
    new_manager (manager_options grow flags (webhook_watcher flags) (metrics_watcher flags))

-- The calls that the flags ask for, in their order.
abbrev pub plan : (ℕ → ℕ → ℕ) → Flags → List Call
plan grow flags =
    concat
      ((add_client_go_scheme ∷ add_database_scheme ∷ [])
        ∷ each (webhook_watcher flags) (λ w. new_cert_watcher w ∷ [])
        ∷ each (metrics_watcher flags) (λ w. new_cert_watcher w ∷ [])
        ∷ [])
      (get_config ∷ manager_call grow flags ∷ registrations flags)

-- How the process ends where a call fails, if it can fail.
abbrev pub failure : Call → Option (Ending Unit)
failure add_client_go_scheme = some panicked
failure add_database_scheme = some panicked
failure (register_injector path) = none
failure _ = some (exited 1)

-- What a call leads to, from its answer and the end that it may bring about.
abbrev pub verdict : Option Err → Option (Ending Unit) → Ending Unit
verdict none end = going tt
verdict (some e) none = going tt
verdict (some e) (some end) = end

-- Make the calls of a list until one ends the process.
abbrev pub run_plan : Platform → List Call → Main Unit
run_plan platform [] = pure tt
run_plan platform (x ∷ xs) =
    λ log. continue (verdict (platform log x) (failure x)) (λ _. run_plan platform xs) (x ∷ log)
