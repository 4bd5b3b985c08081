-- ===== src/Replica/Conditions.antt =====
-- setCondition, over the functions of k8s.io/apimachinery that keep a list of conditions.
use sqlite_operator.Base.{
  ℕ, String, ◌≡◌, Bool, Option, none, some, List, [], ◌∷◌, eqb, if◌then◌else◌,
}
use sqlite_operator.Api.Replica.{
  ConditionType, sidecar_injected, backup_healthy, init_sql_applied, replication_paused,
  archive_check_failed, replica_count_exceeded, ready, ConditionStatus, Condition,
  LitestreamReplica, LitestreamReplicaStatus,
}

unfoldable pub rank : ConditionType → ℕ
rank sidecar_injected = 0
rank backup_healthy = 1
rank init_sql_applied = 2
rank replication_paused = 3
rank archive_check_failed = 4
rank replica_count_exceeded = 5
rank ready = 6

abbrev pub same_type : ConditionType → ConditionType → Bool
same_type a b = eqb (rank a) (rank b)

-- `meta.SetStatusCondition` and `meta.RemoveStatusCondition`
pub record ConditionStore : Type 0 where
  pub set_status_condition : Condition → List Condition → List Condition
  pub remove_status_condition : ConditionType → List Condition → List Condition

-- The status of the first condition of a type.
abbrev pub status_of : ConditionType → List Condition → Option ConditionStatus
status_of t [] = none
status_of t (c ∷ cs) = if same_type c.type t then some c.status else status_of t cs

-- What is documented of the two: the status of a type that is set or removed is that, and the
-- status of every other type stays.
pub record IsLawful (store : ConditionStore) : Type 0 where
  pub sets :
      (t : ConditionType) (c : Condition) (cs : List Condition)
      → status_of t (store.set_status_condition c cs)
        ≡ (if same_type c.type t then some c.status else status_of t cs)
  pub removes :
      (t u : ConditionType) (cs : List Condition)
      → status_of t (store.remove_status_condition u cs)
        ≡ (if same_type u t then none else status_of t cs)

-- `setCondition`, with the generation of the object
abbrev pub set_condition :
    ConditionStore
    → LitestreamReplica
    → ℕ
    → ConditionType
    → ConditionStatus
    → String
    → String
    → List Condition
    → List Condition
set_condition store db now type status reason message conditions =
    store.set_status_condition
      (record {
        type = type;
        status = status;
        reason = reason;
        message = message;
        observed_generation = db.metadata.generation;
        last_transition_time = now;
      })
      conditions

-- The same on the status that holds the conditions.
abbrev pub with_condition :
    ConditionStore
    → LitestreamReplica
    → ℕ
    → ConditionType
    → ConditionStatus
    → String
    → String
    → LitestreamReplicaStatus
    → LitestreamReplicaStatus
with_condition store db now type status reason message s = record s {
  conditions = set_condition store db now type status reason message s.conditions;
}
