-- ===== src/Copies/Deep.antt =====
-- What it is to be a deep copy, and that the copies of pointers and slices are.
use native.Mathlib.Nat.{le_trans}
use sqlite_operator.Base.{ℕ, ◌≤◌, ◌<◌, ◌≡◌, ◌∙◌, refl, Option, none, some, arith}
use sqlite_operator.Copies.Memory.{Library}
use sqlite_operator.Copies.Heap.{Heap, M, pure, Slot, peek, allocated, copy_pointer}

-- Two memories that agree on the cells from one address up to another.
abbrev pub Agree : {l : Library} → Heap l → Heap l → ℕ → ℕ → Type 0
Agree h h' lo hi = (a : ℕ) → lo ≤ a → a < hi → h'.cell a ≡ h.cell a

-- That something in memory stands for a value, through no cell but those from one address up to
-- another.
abbrev pub Stands : Library → Type 0 → Type 0 → Type 1
Stands l T V = T → V → Heap l → ℕ → ℕ → Type 0

-- A copy that has been made: the old cells are as they were, and the copy stands for the value
-- through new cells only.
pub record Copied {l : Library} {T V : Type 0} (R : Stands l T V) (copy : T → M l T) (t : T) (v : V)
    (h : Heap l) : Type 0 where
  pub result : T
  pub after : Heap l
  pub runs : copy t h ≡ some (result, after)
  pub grows : h.next ≤ after.next
  pub keeps : Agree h after 0 h.next
  pub stands : R result v after h.next after.next

-- `moves`: what something stands for depends on its cells alone.
pub record IsDeep {l : Library} {T V : Type 0} (R : Stands l T V) (copy : T → M l T) : Type 0 where
  pub moves :
      (t : T) (v : V) (h h' : Heap l) (lo hi lo' hi' : ℕ)
      → R t v h lo hi
      → lo' ≤ lo
      → hi ≤ hi'
      → Agree h h' lo hi
      → R t v h' lo' hi'
  pub copies : (t : T) (v : V) (h : Heap l) → R t v h 0 h.next → Copied R copy t v h

-- A value without pointers.
abbrev pub Plain : {l : Library} {T : Type 0} → Stands l T T
Plain t v h lo hi = t ≡ v

pub plain-IsDeep : {l : Library} {T : Type 0} → IsDeep {l = l} {T = T} {V = T} Plain pure
plain-IsDeep = record {
  moves = λ t v h h' lo hi lo' hi' e a b g. e;
  copies = λ t v h e. record {
    result = t;
    after = h;
    runs = refl;
    grows = omega arith;
    keeps = λ a x y. refl;
    stands = e;
  };
}

-- A pointer to a cell, and what the cell holds.
pub data Points {l : Library} {T V : Type 0} (slot : Slot l T) (R : Stands l T V) (h : Heap l)
    (lo hi : ℕ) : Option ℕ → Option V → Type 0 where
  nil_pointer : Points slot R h lo hi none none
  points :
      (a : ℕ) (t : T) (v : V)
      → lo ≤ a
      → a < hi
      → peek slot h a ≡ some t
      → R t v h lo hi
      → Points slot R h lo hi (some a) (some v)

abbrev pub Pointed :
    {l : Library} {T V : Type 0} → Slot l T → Stands l T V → Stands l (Option ℕ) (Option V)
Pointed slot R p v h lo hi = Points slot R h lo hi p v

-- What is put into a cell is got from it.
abbrev pub IsSlot : {l : Library} {T : Type 0} → Slot l T → Type 0
IsSlot {T = T} slot = (t : T) → slot.get (slot.put t) ≡ some t

-- A new cell.
pub allocated-keeps :
    {l : Library} {T : Type 0} (slot : Slot l T) (t : T) (h : Heap l)
    → Agree h (allocated slot t h) 0 h.next
allocated-keeps slot t h a x y = ground arith

pub allocated-peek :
    {l : Library} {T : Type 0} (slot : Slot l T)
    → IsSlot slot
    → (t : T) (h : Heap l) → peek slot (allocated slot t h) h.next ≡ some t
allocated-peek slot lawful t h = ground (arith, lawful t)

module _ {l : Library} {T V : Type 0} (slot : Slot l T) (lawful : IsSlot slot) (R : Stands l T V)
    (copy : T → M l T) (deep : IsDeep R copy) where
  pointer-moves :
      (p : Option ℕ) (v : Option V) (h h' : Heap l) (lo hi lo' hi' : ℕ)
      → Pointed slot R p v h lo hi
      → lo' ≤ lo
      → hi ≤ hi'
      → Agree h h' lo hi
      → Pointed slot R p v h' lo' hi'
  pointer-moves _ _ h h' lo hi lo' hi' nil_pointer x y g = nil_pointer
  pointer-moves _ _ h h' lo hi lo' hi' (points a t v b c e r) x y g =
      points a t v (le_trans x b) (le_trans c y) (rw (g a b c) e)
        (deep.moves t v h h' lo hi lo' hi' r x y g)

  pointer-copies :
      (p : Option ℕ) (v : Option V) (h : Heap l)
      → Pointed slot R p v h 0 h.next
      → Copied (Pointed slot R) (copy_pointer slot copy) p v h
  pointer-copies _ _ h nil_pointer = record {
    result = none;
    after = h;
    runs = refl;
    grows = omega arith;
    keeps = λ a x y. refl;
    stands = nil_pointer;
  }
  pointer-copies _ _ h (points a t v b c e r) =
      let k = deep.copies t v h r in
      let last = allocated slot k.result k.after in
      record {
        result = some k.after.next;
        after = last;
        runs = ground (arith, e, k.runs);
        grows = le_trans k.grows (omega arith);
        keeps =
            λ i x y. allocated-keeps slot k.result k.after i x (le_trans y k.grows) ∙ k.keeps i x y;
        stands =
            points k.after.next k.result v k.grows (omega arith)
              (allocated-peek slot lawful k.result k.after)
              (deep.moves k.result v k.after last h.next k.after.next h.next last.next k.stands
                (omega arith) (omega arith)
                (λ i x y. allocated-keeps slot k.result k.after i (omega arith) y));
      }

  pub pointer-IsDeep : IsDeep (Pointed slot R) (copy_pointer slot copy)
  pointer-IsDeep = record { moves = pointer-moves; copies = pointer-copies }
