-- ===== src/Kube/Client.antt =====
-- The client of the API server. What it does is not the program's code: it is a parameter, over an
-- unknown state of the cluster, and every call may fail in any way. Reads are taken to leave the
-- cluster as it is; each write goes through `send`, and is kept in the order newest first.
use sqlite_operator.Base.{ℕ, String, Bool, Option, none, some, List, [], ◌∷◌}
use sqlite_operator.Base.Dict.{Dict}
use sqlite_operator.Kube.Objects.{NamespacedName, WorkloadObject, Pod, ConfigMap, Job}
use sqlite_operator.Kube.Errors.{Err, Result}
use sqlite_operator.Api.Replica.{LitestreamReplica}
use sqlite_operator.Api.Restore.{LitestreamRestore}

-- The resolved target of internal/controller/workload.go, of which one field is not nil.
pub data WorkloadTarget : Type 0 where
  deployment : WorkloadObject → WorkloadTarget
  stateful_set : WorkloadObject → WorkloadTarget

pub data EventType : Type 0 where
  normal warning : EventType

-- The object that an event, or an owner reference, is about.
pub data Owner : Type 0 where
  restore_owner : LitestreamRestore → Owner
  replica_owner : LitestreamReplica → Owner

-- The calls that change the cluster. A patch carries the object that it was taken from and the
-- changed object; the server applies what differs between the two.
pub data Write : Type 0 where
  patch_replica : LitestreamReplica → LitestreamReplica → Write
  patch_replica_status : LitestreamReplica → LitestreamReplica → Write
  patch_restore_status : LitestreamRestore → LitestreamRestore → Write
  patch_workload : WorkloadTarget → WorkloadTarget → Write
  create_job : Job → Write
  -- `controllerutil.CreateOrUpdate`, with the content that its function sets and the owner to which
  -- the function adds a reference
  create_or_update_config_map : NamespacedName → Dict → Owner → Write
  emit_event : Owner → EventType → String → String → Write

pub record Client (S : Type 0) : Type 0 where
  pub get_restore : NamespacedName → S → Result LitestreamRestore
  pub get_replica : NamespacedName → S → Result LitestreamReplica
  pub get_deployment : NamespacedName → S → Result WorkloadObject
  pub get_stateful_set : NamespacedName → S → Result WorkloadObject
  pub get_config_map : NamespacedName → S → Result ConfigMap
  pub get_job : NamespacedName → S → Result Job
  -- in a namespace, the pods that match labels, or a selector's text
  pub list_pods : String → Dict → S → Result (List Pod)
  pub select_pods : String → String → S → Result (List Pod)
  -- the Kubernetes clientset of the restore controller, which may be nil
  pub has_kube_client : Bool
  -- the log of a pod, its last lines, as a stream that is then read
  pub open_log : NamespacedName → ℕ → S → Result ℕ
  pub read_log : ℕ → S → Result String
  -- `controllerutil.SetControllerReference` on a Job
  pub set_controller_reference : Owner → Job → Result Job
  pub send : Write → S → Option Err × S
  -- the object that the server's answer to a successful patch is decoded into
  pub refreshed : LitestreamReplica → S → LitestreamReplica
  -- `metav1.Now`, in seconds
  pub now : S → ℕ

pub record World (S : Type 0) : Type 0 where
  pub cluster : S
  pub sent : List Write

-- A world in which nothing has been sent yet.
abbrev pub start : {S : Type 0} → S → World S
start c = record { cluster = c; sent = [] }

-- A step of the program: it reads the world, and may send writes.
abbrev pub M : Type 0 → Type 0 → Type 0
M S A = World S → A × World S

abbrev pub pure : {S A : Type 0} → A → M S A
pure a w = (a, w)

infixl 5 ◌>>=◌ ◌>>◌
abbrev pub ◌>>=◌ : {S A B : Type 0} → M S A → (A → M S B) → M S B
◌>>=◌ m f w = let (a, w') = m w in f a w'

abbrev pub ◌>>◌ : {S A B : Type 0} → M S A → M S B → M S B
m >> k = m >>= λ _. k

-- Read something off the cluster.
abbrev pub reads : {S A : Type 0} → (S → A) → M S A
reads f w = (f w.cluster, w)

unfoldable pub send : {S : Type 0} → Client S → Write → M S (Option Err)
send client x w =
    let (e, c) = client.send x w.cluster in (e, record { cluster = c; sent = x ∷ w.sent })

-- What a reconciler returns: when to come back, in seconds (0 for not at all), and an error. The
-- manager ignores the first where there is an error.
pub record Outcome : Type 0 where
  pub requeue_after : ℕ
  pub error : Option Err

abbrev pub finished : Outcome
finished = record { requeue_after = 0; error = none }

abbrev pub requeue : ℕ → Outcome
requeue n = record { requeue_after = n; error = none }

abbrev pub failing : Err → Outcome
failing e = record { requeue_after = 0; error = some e }

-- `fmt.Errorf("prefix: %w", err)` on an error that may be nil
abbrev pub wrap_error : String → Option Err → Option Err
wrap_error prefix none = none
wrap_error prefix (some e) = some (Err.wrapped prefix e)
