-- ===== src/Tests/Stores.antt =====
-- A concrete store of conditions, as k8s.io/apimachinery documents it, and that it is lawful.
use sqlite_operator.Base.{ℕ, ◌≡◌, refl, none, some, List, [], ◌∷◌, arith, eqb, if◌then◌else◌}
use sqlite_operator.Api.Replica.{
  ConditionType, ConditionStatus, true_status, false_status, unknown_status, Condition,
}
use sqlite_operator.Replica.Conditions.{same_type, ConditionStore, status_of, IsLawful}

abbrev status_rank : ConditionStatus → ℕ
status_rank true_status = 0
status_rank false_status = 1
status_rank unknown_status = 2

-- The time of the transition stays where the status does.
abbrev renewed : Condition → Condition → Condition
renewed old new = record new {
  last_transition_time =
      if eqb (status_rank old.status) (status_rank new.status)
      then old.last_transition_time
      else new.last_transition_time;
}

abbrev set_first : Condition → List Condition → List Condition
set_first c [] = c ∷ []
set_first c (x ∷ xs) = if same_type x.type c.type then renewed x c ∷ xs else x ∷ set_first c xs

abbrev remove_all : ConditionType → List Condition → List Condition
remove_all t [] = []
remove_all t (x ∷ xs) = let rest = remove_all t xs in if same_type x.type t then rest else x ∷ rest

abbrev pub store : ConditionStore
store = record { set_status_condition = set_first; remove_status_condition = remove_all }

set_first-status_of :
    (t : ConditionType) (c : Condition) (cs : List Condition)
    → status_of t (set_first c cs) ≡ (if same_type c.type t then some c.status else status_of t cs)
set_first-status_of t c [] = refl
set_first-status_of t c (x ∷ xs) = ground (arith, set_first-status_of t c xs)

remove_all-status_of :
    (t u : ConditionType) (cs : List Condition)
    → status_of t (remove_all u cs) ≡ (if same_type u t then none else status_of t cs)
remove_all-status_of t u [] = ground arith
remove_all-status_of t u (x ∷ xs) = ground (arith, remove_all-status_of t u xs)

pub store-IsLawful : IsLawful store
store-IsLawful = record { sets = set_first-status_of; removes = remove_all-status_of }
