-- ===== src/Copies/Calls.antt =====
-- The deep copies of apimachinery and of core/v1 that the generated code calls.
use sqlite_operator.Base.{ℕ}
use sqlite_operator.Api.Replica.{Condition}
use sqlite_operator.Copies.Memory.{Library}
use sqlite_operator.Copies.Heap.{M}

pub record Calls (l : Library) : Type 0 where
  -- ObjectMeta.DeepCopyInto, ListMeta.DeepCopyInto and ResourceRequirements.DeepCopyInto
  pub copy_meta : l.Meta → M l l.Meta
  pub copy_list_meta : l.ListMeta → M l l.ListMeta
  pub copy_resources : l.Resources → M l l.Resources
  -- Condition.DeepCopyInto
  pub copy_condition : Condition → M l Condition
  -- Time.DeepCopyInto, behind the pointer's Time.DeepCopy
  pub copy_time : ℕ → M l ℕ
