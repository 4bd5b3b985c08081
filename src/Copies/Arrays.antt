-- ===== src/Copies/Arrays.antt =====
-- The copies of slices are deep.
use native.Mathlib.Nat.{le_trans}
use sqlite_operator.Base.{
  ℕ, zero, suc, ◌≤◌, ◌<◌, ◌≡◌, ◌∙◌, refl, sym, ap, Option, none, some, List, [], ◌∷◌, arith,
}
use sqlite_operator.Copies.Memory.{Library, Slice}
use sqlite_operator.Copies.Heap.{
  Heap, M, Slot, peek, allocated, copy_slice, copy_each, exactly, window,
}
use sqlite_operator.Copies.Deep.{
  Agree, Stands, Copied, IsDeep, IsSlot, allocated-keeps, allocated-peek,
}

abbrev length : {A : Type 0} → List A → ℕ
length [] = 0
length (x ∷ xs) = suc (length xs)

exactly-length : {A : Type 0} (n : ℕ) (xs ys : List A) → exactly n xs ≡ some ys → length ys ≡ n
exactly-length zero xs ys e = ground (arith, e)
exactly-length (suc n) [] ys e = ground (arith, e)
exactly-length (suc n) (x ∷ xs) ys e = grind (arith, exactly-length n xs)

exactly-all : {A : Type 0} (xs : List A) → exactly (length xs) xs ≡ some xs
exactly-all [] = refl
exactly-all (x ∷ xs) = rw (exactly-all xs) refl

-- The elements of an array, one by one.
pub data Each {l : Library} {T V : Type 0} (R : Stands l T V) (h : Heap l) (lo hi : ℕ)
    : List T → List V → Type 0 where
  no_more : Each R h lo hi [] []
  one_more :
      (t : T) (v : V) (ts : List T) (vs : List V)
      → R t v h lo hi
      → Each R h lo hi ts vs
      → Each R h lo hi (t ∷ ts) (v ∷ vs)

-- A slice, the array that it is a part of, and the elements of the part. A nil slice and an empty one
-- stand for the same list.
pub data Covers {l : Library} {T V : Type 0} (slot : Slot l (List T)) (R : Stands l T V)
    (h : Heap l) (lo hi : ℕ) : Option Slice → List V → Type 0 where
  nil_slice : Covers slot R h lo hi none []
  covers :
      (s : Slice) (ts part : List T) (vs : List V)
      → lo ≤ s.array
      → s.array < hi
      → peek slot h s.array ≡ some ts
      → window s ts ≡ some part
      → Each R h lo hi part vs
      → Covers slot R h lo hi (some s) vs

abbrev pub Covered :
    {l : Library} {T V : Type 0} → Slot l (List T) → Stands l T V → Stands l (Option Slice) (List V)
Covered slot R s vs h lo hi = Covers slot R h lo hi s vs

module _ {l : Library} {T V : Type 0} (R : Stands l T V) (copy : T → M l T)
    (deep : IsDeep R copy) where
  abbrev AllOf : Stands l (List T) (List V)
  AllOf ts vs h lo hi = Each R h lo hi ts vs

  each-moves :
      (h h' : Heap l) (lo hi lo' hi' : ℕ) (ts : List T) (vs : List V)
      → AllOf ts vs h lo hi
      → lo' ≤ lo
      → hi ≤ hi'
      → Agree h h' lo hi
      → AllOf ts vs h' lo' hi'
  each-moves h h' lo hi lo' hi' _ _ no_more x y g = no_more
  each-moves h h' lo hi lo' hi' _ _ (one_more t v ts vs r rest) x y g =
      one_more t v ts vs (deep.moves t v h h' lo hi lo' hi' r x y g)
        (each-moves h h' lo hi lo' hi' ts vs rest x y g)

  -- The copies are as many as the elements.
  each-copies :
      (ts : List T) (vs : List V) (h : Heap l)
      → AllOf ts vs h 0 h.next
      → (c : Copied AllOf (copy_each copy) ts vs h) × (length c.result ≡ length ts)
  each-copies [] _ h no_more = (
    record {
      result = [];
      after = h;
      runs = refl;
      grows = omega arith;
      keeps = λ a x y. refl;
      stands = no_more;
    },
    refl,
  )
  each-copies (_ ∷ ts) _ h (one_more t v _ vs r rest) =
      let k = deep.copies t v h r in
      let still =
        each-moves h k.after 0 h.next 0 k.after.next ts vs rest (omega arith) k.grows k.keeps in
      let (m, same) = each-copies ts vs k.after still in
      (
        record {
          result = k.result ∷ m.result;
          after = m.after;
          runs = ground (arith, k.runs, m.runs);
          grows = le_trans k.grows m.grows;
          keeps = λ a x y. m.keeps a x (le_trans y k.grows) ∙ k.keeps a x y;
          stands =
              one_more k.result v m.result vs
                (deep.moves k.result v k.after m.after h.next k.after.next h.next m.after.next
                  k.stands (omega arith) m.grows (λ a x y. m.keeps a (omega arith) y))
                (each-moves m.after m.after k.after.next m.after.next h.next m.after.next m.result
                  vs m.stands k.grows (omega arith) (λ a x y. refl));
        },
        ap suc same,
      )

module _ {l : Library} {T V : Type 0} (slot : Slot l (List T)) (lawful : IsSlot slot)
    (R : Stands l T V) (copy : T → M l T) (deep : IsDeep R copy) where
  slice-moves :
      (s : Option Slice) (vs : List V) (h h' : Heap l) (lo hi lo' hi' : ℕ)
      → Covered slot R s vs h lo hi
      → lo' ≤ lo
      → hi ≤ hi'
      → Agree h h' lo hi
      → Covered slot R s vs h' lo' hi'
  slice-moves _ _ h h' lo hi lo' hi' nil_slice x y g = nil_slice
  slice-moves _ _ h h' lo hi lo' hi' (covers s ts part vs b c e w r) x y g =
      covers s ts part vs (le_trans x b) (le_trans c y) (rw (g s.array b c) e) w
        (each-moves R copy deep h h' lo hi lo' hi' part vs r x y g)

  slice-copies :
      (s : Option Slice) (vs : List V) (h : Heap l)
      → Covered slot R s vs h 0 h.next
      → Copied (Covered slot R) (copy_slice slot copy) s vs h
  slice-copies _ _ h nil_slice = record {
    result = none;
    after = h;
    runs = refl;
    grows = omega arith;
    keeps = λ a x y. refl;
    stands = nil_slice;
  }
  slice-copies _ _ h (covers s ts part vs b c e w r) =
      let (k, same) = each-copies R copy deep part vs h r in
      let last = allocated slot k.result k.after in
      let kept = allocated-keeps slot k.result k.after in
      let whole =
        ap (λ n. exactly n k.result) (sym (same ∙ exactly-length _ _ _ w)) ∙ exactly-all k.result in
      record {
        result = some (record { array = k.after.next; offset = 0; length = s.length });
        after = last;
        runs = ground (arith, e, w, k.runs);
        grows = le_trans k.grows (omega arith);
        keeps = λ i x y. kept i x (le_trans y k.grows) ∙ k.keeps i x y;
        stands =
            covers _ k.result k.result vs k.grows (omega arith)
              (allocated-peek slot lawful k.result k.after) whole
              (each-moves R copy deep k.after last h.next k.after.next h.next last.next k.result vs
                k.stands (omega arith) (omega arith) (λ i x y. kept i (omega arith) y));
      }

  pub slice-IsDeep : IsDeep (Covered slot R) (copy_slice slot copy)
  slice-IsDeep = record { moves = slice-moves; copies = slice-copies }
