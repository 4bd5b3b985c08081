-- ===== src/Copies/Heap.antt =====
-- The memory: cells by address, and steps over it that may fault.
use sqlite_operator.Base.{ℕ, zero, suc, Option, none, some, List, [], ◌∷◌, ℤ, eqb, if◌then◌else◌}
use sqlite_operator.Api.Replica.{S3Destination, RetentionPolicy, Condition}
use sqlite_operator.Copies.Memory.{
  Library, Slice, StoredDestination, StoredBackup, StoredReplicaSpec, StoredReplicaStatus,
  StoredReplica, StoredRestoreSpec, StoredRestoreStatus, StoredRestore, StoredList,
}

-- What a cell holds: a struct, an array, or a number.
pub data Cell (l : Library) : Type 0 where
  s3_cell : S3Destination → Cell l
  destination_cell : StoredDestination → Cell l
  retention_cell : RetentionPolicy → Cell l
  backup_cell : StoredBackup → Cell l
  resources_cell : l.Resources → Cell l
  replica_spec_cell : StoredReplicaSpec → Cell l
  replica_status_cell : StoredReplicaStatus → Cell l
  replica_cell : StoredReplica l → Cell l
  replica_list_cell : StoredList l → Cell l
  restore_spec_cell : StoredRestoreSpec → Cell l
  restore_status_cell : StoredRestoreStatus → Cell l
  restore_cell : StoredRestore l → Cell l
  restore_list_cell : StoredList l → Cell l
  integer_cell : ℤ → Cell l
  time_cell : ℕ → Cell l
  conditions_array : List Condition → Cell l
  replicas_array : List (StoredReplica l) → Cell l
  restores_array : List (StoredRestore l) → Cell l
  leaf_cell : l.Leaf → Cell l

pub record Heap (l : Library) : Type 0 where
  pub next : ℕ
  pub cell : ℕ → Option (Cell l)

-- `none` is a fault: a pointer to no cell or to one of another type, or a slice past its array.
abbrev pub M : Library → Type 0 → Type 0
M l A = Heap l → Option (A × Heap l)

abbrev pub pure : {l : Library} {A : Type 0} → A → M l A
pure a h = some (a, h)

infixl 5 ◌>>=◌
abbrev pub ◌>>=◌ : {l : Library} {A B : Type 0} → M l A → (A → M l B) → M l B
◌>>=◌ m f h = elim (m h) [ none ↦ none | some (a, h') ↦ f a h' ]

-- How a type is held by a cell.
pub record Slot (l : Library) (T : Type 0) : Type 0 where
  pub put : T → Cell l
  pub get : Cell l → Option T

abbrev pub typed : {l : Library} {T : Type 0} → Slot l T → Option (Cell l) → Option T
typed slot none = none
typed slot (some c) = slot.get c

-- What a pointer of a type points to.
abbrev pub peek : {l : Library} {T : Type 0} → Slot l T → Heap l → ℕ → Option T
peek slot h a = typed slot (h.cell a)

abbrev pub found : {l : Library} {T : Type 0} → Option T → M l T
found none h = none
found (some t) h = some (t, h)

abbrev pub load : {l : Library} {T : Type 0} → Slot l T → ℕ → M l T
load slot a h = found (peek slot h a) h

abbrev pub allocated : {l : Library} {T : Type 0} → Slot l T → T → Heap l → Heap l
allocated slot t h = record {
  next = suc h.next;
  cell = λ a. if eqb a h.next then some (slot.put t) else h.cell a;
}

-- A new cell that is filled at once.
abbrev pub new : {l : Library} {T : Type 0} → Slot l T → T → M l ℕ
new slot t h = some (h.next, allocated slot t h)

-- A pointer, and where it is not nil what it points to: `new`, and a copy into the new cell.
abbrev pub copy_pointer :
    {l : Library} {T : Type 0} → Slot l T → (T → M l T) → Option ℕ → M l (Option ℕ)
copy_pointer slot copy none = pure none
copy_pointer slot copy (some a) = load slot a >>= copy >>= new slot >>= λ b. pure (some b)

abbrev pub skip : {A : Type 0} → ℕ → List A → List A
skip zero xs = xs
skip (suc n) [] = []
skip (suc n) (x ∷ xs) = skip n xs

-- The first n elements, where there are so many.
abbrev pub exactly : {A : Type 0} → ℕ → List A → Option (List A)
exactly zero xs = some []
exactly (suc n) [] = none
exactly (suc n) (x ∷ xs) = elim (exactly n xs) [ none ↦ none | some ys ↦ some (x ∷ ys) ]

abbrev pub window : {A : Type 0} → Slice → List A → Option (List A)
window s xs = exactly s.length (skip s.offset xs)

-- `for i := range *in { (*in)[i].DeepCopyInto(&(*out)[i]) }`
abbrev pub copy_each : {l : Library} {T : Type 0} → (T → M l T) → List T → M l (List T)
copy_each copy [] = pure []
copy_each copy (x ∷ xs) = copy x >>= λ y. copy_each copy xs >>= λ ys. pure (y ∷ ys)

-- A slice, and where it is not nil its elements, into a new array of its length.
abbrev pub copy_slice :
    {l : Library} {T : Type 0} → Slot l (List T) → (T → M l T) → Option Slice → M l (Option Slice)
copy_slice slot copy none = pure none
copy_slice slot copy (some s) =
    load slot s.array >>= (λ xs. found (window s xs)) >>= copy_each copy >>= new slot >>= λ b.
    pure (some (record { array = b; offset = 0; length = s.length }))
