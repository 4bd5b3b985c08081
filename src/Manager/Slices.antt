-- ===== src/Manager/Slices.antt =====
-- Slices of Go: a view of an array, which several slices may share. `append` writes into the array
-- where its capacity allows it, and takes a new array otherwise.
use sqlite_operator.Base.{ℕ, zero, suc, List, [], ◌∷◌, ◌++◌, eqb, ltb, if◌then◌else◌}

-- The arrays that have been taken, by their number, with the elements written so far.
pub record Heap (A : Type 0) : Type 0 where
  pub arrays : ℕ → List A
  pub next : ℕ

pub record Slice : Type 0 where
  pub array : ℕ
  pub length : ℕ
  pub capacity : ℕ

abbrev pub no_arrays : {A : Type 0} → Heap A
no_arrays = record { arrays = λ i. []; next = 0 }

abbrev pub nil : Slice
nil = record { array = 0; length = 0; capacity = 0 }

abbrev pub take : {A : Type 0} → ℕ → List A → List A
take zero l = []
take (suc n) [] = []
take (suc n) (x ∷ l) = x ∷ take n l

abbrev pub read : {A : Type 0} → Heap A → Slice → List A
read h s = take s.length (h.arrays s.array)

-- Write an element behind the first n.
abbrev put : {A : Type 0} → ℕ → A → List A → List A
put zero x [] = x ∷ []
put zero x (y ∷ l) = x ∷ l
put (suc n) x [] = []
put (suc n) x (y ∷ l) = y ∷ put n x l

abbrev pub store : {A : Type 0} → Heap A → ℕ → List A → ℕ → List A
store h i l j = if eqb i j then l else h.arrays j

-- The capacity of a new array, from the old capacity and the length that is needed, is the runtime's.
module _ {A : Type 0} (grow : ℕ → ℕ → ℕ) where
  unfoldable pub append : Heap A → Slice → A → Heap A × Slice
  append h s x =
      if ltb s.length s.capacity
      then (
        record h { arrays = store h s.array (put s.length x (h.arrays s.array)) },
        record s { length = suc s.length },
      )
      else (
        record h { arrays = store h h.next (read h s ++ x ∷ []); next = suc h.next },
        record { array = h.next; length = suc s.length; capacity = grow s.capacity (suc s.length) },
      )
