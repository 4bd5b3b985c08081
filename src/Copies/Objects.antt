-- ===== src/Copies/Objects.antt =====
-- DeepCopyObject: the deep copy of a pointer as a runtime.Object.
use sqlite_operator.Base.{ℕ, Option, none, some}
use sqlite_operator.Copies.Memory.{Library}
use sqlite_operator.Copies.Heap.{M, pure, ◌>>=◌}
use sqlite_operator.Copies.Calls.{Calls}
use sqlite_operator.Copies.Replicas.{replica_deep_copy, replica_list_deep_copy}
use sqlite_operator.Copies.Restores.{restore_deep_copy, restore_list_deep_copy}

-- An interface that is not nil: the type of a pointer, and the pointer, which may still be nil.
pub data RuntimeObject : Type 0 where
  replica_object replica_list_object restore_object restore_list_object : Option ℕ → RuntimeObject

-- `if c := in.DeepCopy(); c != nil { return c }; return nil`
abbrev pub as_object : (Option ℕ → RuntimeObject) → Option ℕ → Option RuntimeObject
as_object type none = none
as_object type (some a) = some (type (some a))

module _ {l : Library} (calls : Calls l) where
  unfoldable pub replica_deep_copy_object : Option ℕ → M l (Option RuntimeObject)
  replica_deep_copy_object p = replica_deep_copy calls p >>= λ c. pure (as_object replica_object c)

  unfoldable pub replica_list_deep_copy_object : Option ℕ → M l (Option RuntimeObject)
  replica_list_deep_copy_object p =
      replica_list_deep_copy calls p >>= λ c. pure (as_object replica_list_object c)

  unfoldable pub restore_deep_copy_object : Option ℕ → M l (Option RuntimeObject)
  restore_deep_copy_object p = restore_deep_copy calls p >>= λ c. pure (as_object restore_object c)

  unfoldable pub restore_list_deep_copy_object : Option ℕ → M l (Option RuntimeObject)
  restore_list_deep_copy_object p =
      restore_list_deep_copy calls p >>= λ c. pure (as_object restore_list_object c)
