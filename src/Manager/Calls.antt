-- ===== src/Manager/Calls.antt =====
-- The calls that cmd/main.go makes of controller-runtime and of the libraries, and how the process
-- ends. What a call does is not the program's code: whether it fails is a parameter, which may depend on
-- every call before it.
use sqlite_operator.Base.{ℕ, String, Bool, Option, none, some, List, ◌∷◌}
use sqlite_operator.Kube.Errors.{Err}
use sqlite_operator.Manager.Tls.{CertWatcher, TlsOption}

-- The kinds of objects that a controller watches.
pub data Kind : Type 0 where
  litestream_replica litestream_restore config_map job : Kind

-- What a reconciler holds, and what it is registered for.
pub record Controller : Type 0 where
  pub recorder : String
  pub has_kube_client : Bool
  pub reconciles : Kind
  pub owns : Kind
  -- pod events are mapped to the replica that the pod names
  pub watches_pods : Bool
  pub name : String

pub record MetricsOptions : Type 0 where
  pub bind_address : String
  pub secure_serving : Bool
  pub has_filter : Bool
  pub metrics_opts : List TlsOption

-- The slices of TLS options are given with what they hold then; no array is written afterwards.
pub record ManagerOptions : Type 0 where
  pub metrics : MetricsOptions
  pub webhook_opts : List TlsOption
  pub health_probe_bind_address : String
  pub leader_election : Bool
  pub leader_election_id : String

pub data Call : Type 0 where
  add_client_go_scheme add_database_scheme : Call
  new_cert_watcher : CertWatcher → Call
  get_config : Call
  new_manager : ManagerOptions → Call
  complete_controller : Controller → Call
  new_kube_client : Call
  -- the validator of a kind, with whether it has a client
  complete_validator : Kind → Bool → Call
  register_injector : String → Call
  add_cert_watcher : CertWatcher → Call
  add_healthz_check add_readyz_check : String → Call
  start_manager : Call

-- What each call answers, given the calls before it, newest first.
abbrev pub Platform : Type 0
Platform = List Call → Call → Option Err

pub data Ending (A : Type 0) : Type 0 where
  going : A → Ending A
  exited : ℕ → Ending A
  panicked : Ending A

-- A step of the program, over the calls that were made, newest first.
abbrev pub Main : Type 0 → Type 0
Main A = List Call → Ending A × List Call

abbrev pub pure : {A : Type 0} → A → Main A
pure a log = (going a, log)

abbrev pub continue : {A B : Type 0} → Ending A → (A → Main B) → Main B
continue (going a) f log = f a log
continue (exited n) f log = (exited n, log)
continue panicked f log = (panicked, log)

infixl 5 ◌>>=◌ ◌>>◌
abbrev pub ◌>>=◌ : {A B : Type 0} → Main A → (A → Main B) → Main B
◌>>=◌ m f log = let (e, log') = m log in continue e f log'

abbrev pub ◌>>◌ : {A B : Type 0} → Main A → Main B → Main B
m >> k = m >>= λ _. k

-- The exit code: that of `os.Exit`, 2 after a panic, and 0 where main returns.
abbrev pub exit_code : {A : Type 0} → Ending A → ℕ
exit_code (going a) = 0
exit_code (exited n) = n
exit_code panicked = 2

module _ (platform : Platform) where
  -- A call whose error is logged and ends the process.
  unfoldable pub attempt : Call → Main Unit
  attempt x log = elim (platform log x) [
    | none ↦ (going tt, x ∷ log)
    | some e ↦ (exited 1, x ∷ log)
  ]

  -- `utilruntime.Must`
  unfoldable pub must : Call → Main Unit
  must x log = elim (platform log x) [ none ↦ (going tt, x ∷ log) | some e ↦ (panicked, x ∷ log) ]

  -- A call that returns no error.
  unfoldable pub perform : Call → Main Unit
  perform x log = (going tt, x ∷ log)
