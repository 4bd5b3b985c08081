-- ===== src/Copies/Parts.antt =====
-- The copy of a struct is deep where the copies of its parts are: its other fields are assigned.
use native.Mathlib.Nat.{le_trans}
use sqlite_operator.Base.{ℕ, ◌≤◌, ◌≡◌, ◌∙◌, refl, arith}
use sqlite_operator.Copies.Memory.{Library}
use sqlite_operator.Copies.Heap.{Heap, M, pure, ◌>>=◌}
use sqlite_operator.Copies.Deep.{Agree, Stands, IsDeep}

-- What two copies in a row leave as it was.
Agree-then :
    {l : Library} (h h' h'' : Heap l)
    → h.next ≤ h'.next
    → Agree h h' 0 h.next
    → Agree h' h'' 0 h'.next
    → Agree h h'' 0 h.next
Agree-then h h' h'' g p q a x y = q a x (le_trans y g) ∙ p a x y

-- A part that was copied first still stands for its value behind the next copy.
settled :
    {l : Library} {T V : Type 0} (R : Stands l T V) (copy : T → M l T)
    → IsDeep R copy
    → (t : T) (v : V) (h h' h'' : Heap l) → R t v h' h.next h'.next
    → h'.next ≤ h''.next
    → Agree h' h'' 0 h'.next
    → R t v h'' h.next h''.next
settled R copy deep t v h h' h'' r g k =
    deep.moves t v h' h'' h.next h'.next h.next h''.next r (omega arith) g
      (λ a x y. k a (omega arith) y)

-- A part that is copied later still stands for its value behind the first copy.
waiting :
    {l : Library} {T V : Type 0} (R : Stands l T V) (copy : T → M l T)
    → IsDeep R copy
    → (t : T) (v : V) (h h' : Heap l) → R t v h 0 h.next
    → h.next ≤ h'.next
    → Agree h h' 0 h.next
    → R t v h' 0 h'.next
waiting R copy deep t v h h' r g k = deep.moves t v h h' 0 h.next 0 h'.next r (omega arith) g k

-- What a part that is copied last stands for, through the cells from the first copy on.
widened :
    {l : Library} {T V : Type 0} (R : Stands l T V) (copy : T → M l T)
    → IsDeep R copy
    → (t : T) (v : V) (h : Heap l) (lo lo' hi : ℕ) → R t v h lo hi
    → lo' ≤ lo
    → R t v h lo' hi
widened R copy deep t v h lo lo' hi r g =
    deep.moves t v h h lo hi lo' hi r g (omega arith) (λ a x y. refl)

-- A struct with one part that is copied.
abbrev pub One :
    {l : Library} {T V A U : Type 0} → (T → A) → (T → U → V) → Stands l A U → Stands l T V
One {U = U} part value R t v h lo hi = (u : U) × R (part t) u h lo hi × (v ≡ value t u)

pub one-IsDeep :
    {l : Library} {T V A U : Type 0} (part : T → A) (put : T → A → T) (value : T → U → V)
    (R : Stands l A U) (copy : A → M l A)
    → ((t : T) (a : A) → part (put t a) ≡ a)
    → ((t : T) (a : A) (u : U) → value t u ≡ value (put t a) u)
    → IsDeep R copy
    → IsDeep (One part value R) (λ t. copy (part t) >>= λ a. pure (put t a))
one-IsDeep part put value R copy held same deep = record {
  moves = λ t v h h' lo hi lo' hi' (u, r, e) x y g.
      (u, deep.moves (part t) u h h' lo hi lo' hi' r x y g, e);
  copies = λ t v h (u, r, e).
      let k = deep.copies (part t) u h r in
      record {
        result = put t k.result;
        after = k.after;
        runs = ground (arith, k.runs);
        grows = k.grows;
        keeps = k.keeps;
        stands = (u, rw (held t k.result) k.stands, e ∙ same t k.result u);
      };
}

-- A struct with two parts that are copied, one after the other.
abbrev pub Two :
    {l : Library} {T V A B U W : Type 0}
    → (T → A)
    → (T → B)
    → (T → U → W → V)
    → Stands l A U
    → Stands l B W
    → Stands l T V
Two {U = U} {W = W} part_a part_b value R Q t v h lo hi =
    (u : U) × (w : W) × R (part_a t) u h lo hi × Q (part_b t) w h lo hi × (v ≡ value t u w)

pub two-IsDeep :
    {l : Library} {T V A B U W : Type 0} (part_a : T → A) (part_b : T → B) (put : T → A → B → T)
    (value : T → U → W → V) (R : Stands l A U) (Q : Stands l B W) (copy_a : A → M l A)
    (copy_b : B → M l B)
    → ((t : T) (a : A) (b : B) → part_a (put t a b) ≡ a)
    → ((t : T) (a : A) (b : B) → part_b (put t a b) ≡ b)
    → ((t : T) (a : A) (b : B) (u : U) (w : W) → value t u w ≡ value (put t a b) u w)
    → IsDeep R copy_a
    → IsDeep Q copy_b
    → IsDeep
        (Two part_a part_b value R Q)
        (λ t. copy_a (part_a t) >>= λ a. copy_b (part_b t) >>= λ b. pure (put t a b))
two-IsDeep part_a part_b put value R Q copy_a copy_b held_a held_b same deep_a deep_b = record {
  moves = λ t v h h' lo hi lo' hi' (u, w, r, q, e) x y g. (
    u,
    w,
    deep_a.moves (part_a t) u h h' lo hi lo' hi' r x y g,
    deep_b.moves (part_b t) w h h' lo hi lo' hi' q x y g,
    e,
  );
  copies = λ t v h (u, w, r, q, e).
      let k = deep_a.copies (part_a t) u h r in
      let m =
        deep_b.copies (part_b t) w k.after
          (waiting Q copy_b deep_b (part_b t) w h k.after q k.grows k.keeps) in
      record {
        result = put t k.result m.result;
        after = m.after;
        runs = ground (arith, k.runs, m.runs);
        grows = le_trans k.grows m.grows;
        keeps = Agree-then h k.after m.after k.grows k.keeps m.keeps;
        stands = (
          u,
          w,
          rw (held_a t k.result m.result)
              (settled R copy_a deep_a k.result u h k.after m.after k.stands m.grows m.keeps),
          rw (held_b t k.result m.result) (
              widened Q copy_b deep_b m.result w m.after k.after.next h.next m.after.next m.stands
                k.grows),
          e ∙ same t k.result m.result u w,
        );
      };
}

-- A struct with three parts that are copied, one after the other.
abbrev pub Three :
    {l : Library} {T V A B C U W X : Type 0}
    → (T → A)
    → (T → B)
    → (T → C)
    → (T → U → W → X → V)
    → Stands l A U
    → Stands l B W
    → Stands l C X
    → Stands l T V
Three {U = U} {W = W} {X = X} part_a part_b part_c value R Q P t v h lo hi =
    (u : U) × (w : W) × (x : X) × R (part_a t) u h lo hi
    × Q (part_b t) w h lo hi
    × P (part_c t) x h lo hi
    × (v ≡ value t u w x)

pub three-IsDeep :
    {l : Library} {T V A B C U W X : Type 0} (part_a : T → A) (part_b : T → B) (part_c : T → C)
    (put : T → A → B → C → T) (value : T → U → W → X → V) (R : Stands l A U) (Q : Stands l B W)
    (P : Stands l C X) (copy_a : A → M l A) (copy_b : B → M l B) (copy_c : C → M l C)
    → ((t : T) (a : A) (b : B) (c : C) → part_a (put t a b c) ≡ a)
    → ((t : T) (a : A) (b : B) (c : C) → part_b (put t a b c) ≡ b)
    → ((t : T) (a : A) (b : B) (c : C) → part_c (put t a b c) ≡ c)
    → ((t : T) (a : A) (b : B) (c : C) (u : U) (w : W) (x : X)
        → value t u w x ≡ value (put t a b c) u w x)
    → IsDeep R copy_a
    → IsDeep Q copy_b
    → IsDeep P copy_c
    → IsDeep (Three part_a part_b part_c value R Q P) (λ t. copy_a (part_a t) >>= λ a.
        copy_b (part_b t) >>= λ b. copy_c (part_c t) >>= λ c. pure (put t a b c))
three-IsDeep part_a part_b part_c put value R Q P copy_a copy_b copy_c held_a held_b held_c same
      deep_a deep_b deep_c =
    record {
      moves = λ t v h h' lo hi lo' hi' (u, w, x, r, q, p, e) y z g. (
        u,
        w,
        x,
        deep_a.moves (part_a t) u h h' lo hi lo' hi' r y z g,
        deep_b.moves (part_b t) w h h' lo hi lo' hi' q y z g,
        deep_c.moves (part_c t) x h h' lo hi lo' hi' p y z g,
        e,
      );
      copies = λ t v h (u, w, x, r, q, p, e).
          let k = deep_a.copies (part_a t) u h r in
          let m =
            deep_b.copies (part_b t) w k.after
              (waiting Q copy_b deep_b (part_b t) w h k.after q k.grows k.keeps) in
          let both = Agree-then h k.after m.after k.grows k.keeps m.keeps in
          let n =
            deep_c.copies (part_c t) x m.after
              (waiting P copy_c deep_c (part_c t) x h m.after p (le_trans k.grows m.grows) both) in
          let rest = Agree-then k.after m.after n.after m.grows m.keeps n.keeps in
          record {
            result = put t k.result m.result n.result;
            after = n.after;
            runs = ground (arith, k.runs, m.runs, n.runs);
            grows = le_trans k.grows (le_trans m.grows n.grows);
            keeps = Agree-then h m.after n.after (le_trans k.grows m.grows) both n.keeps;
            stands = (
              u,
              w,
              x,
              rw (held_a t k.result m.result n.result) (
                  settled R copy_a deep_a k.result u h k.after n.after k.stands
                    (le_trans m.grows n.grows) rest),
              rw (held_b t k.result m.result n.result) (
                  widened Q copy_b deep_b m.result w n.after k.after.next h.next n.after.next
                    (settled Q copy_b deep_b m.result w k.after m.after n.after m.stands n.grows
                      n.keeps)
                    k.grows),
              rw (held_c t k.result m.result n.result) (
                  widened P copy_c deep_c n.result x n.after m.after.next h.next n.after.next
                    n.stands (le_trans k.grows m.grows)),
              e ∙ same t k.result m.result n.result u w x,
            );
          };
    }
