-- ===== src/Copies/Isolation.antt =====
-- A deep copy and its original share no cell: what is written through one leaves the other as it is.
use sqlite_operator.Base.{ℕ, ◌≡◌, ◌∙◌, refl, Option, some, arith}
use sqlite_operator.Api.Replica.{LitestreamReplica}
use sqlite_operator.Api.Restore.{LitestreamRestore}
use sqlite_operator.Copies.Memory.{Library}
use sqlite_operator.Copies.Heap.{Heap, M, pure, ◌>>=◌, Slot, copy_pointer}
use sqlite_operator.Copies.Slots.{replica_slot, replica_list_slot, restore_slot, restore_list_slot}
use sqlite_operator.Copies.Calls.{Calls}
use sqlite_operator.Copies.Replicas.{replica_deep_copy, replica_list_deep_copy}
use sqlite_operator.Copies.Restores.{restore_deep_copy, restore_list_deep_copy}
use sqlite_operator.Copies.Objects.{
  RuntimeObject, as_object, replica_object, replica_list_object, restore_object,
  restore_list_object, replica_deep_copy_object, replica_list_deep_copy_object,
  restore_deep_copy_object, restore_list_deep_copy_object,
}
use sqlite_operator.Copies.Deep.{Agree, Stands, IsDeep, IsSlot, points, Pointed, pointer-IsDeep}
use sqlite_operator.Copies.Meaning.{
  Meaning, IsDeepLibrary, Typed, ListOf, StandsReplica, StandsReplicaList, StandsRestore,
  StandsRestoreList,
}
use sqlite_operator.Copies.Structs.{
  replica-IsDeep, replica_list-IsDeep, restore-IsDeep, restore_list-IsDeep,
}

-- A call answers with a pointer to a copy. Whatever is written to other cells than those that the call
-- has taken, the copy stands for the value; and whatever is written to no cell but those, the original
-- does.
pub record Isolated {l : Library} {T V A : Type 0} (slot : Slot l T) (R : Stands l T V)
    (call : Option ℕ → M l A) (answer : Option ℕ → A) (p : ℕ) (v : V) (h : Heap l) : Type 0 where
  pub copy : ℕ
  pub after : Heap l
  pub runs : call (some p) h ≡ some (answer (some copy), after)
  pub copy_stays :
      (h' : Heap l)
      → Agree after h' h.next after.next
      → Pointed slot R (some copy) (some v) h' h.next after.next
  pub original_stays :
      (h' : Heap l) → Agree after h' 0 h.next → Pointed slot R (some p) (some v) h' 0 h.next

abbrev pub same : Option ℕ → Option ℕ
same p = p

points-is_some :
    {l : Library} {T V : Type 0} (slot : Slot l T) (R : Stands l T V) (p : Option ℕ) (v : V)
    (h : Heap l) (lo hi : ℕ)
    → Pointed slot R p (some v) h lo hi
    → (a : ℕ) × (p ≡ some a)
points-is_some slot R _ v h lo hi (points a t _ b c e r) = (a, refl)

module _ {l : Library} {T V : Type 0} (slot : Slot l T) (lawful : IsSlot slot) (R : Stands l T V)
    (copy : T → M l T) (deep : IsDeep R copy) where
  copy_pointer-Isolated :
      (p : ℕ) (v : V) (h : Heap l)
      → Pointed slot R (some p) (some v) h 0 h.next
      → Isolated slot R (copy_pointer slot copy) same p v h
  copy_pointer-Isolated p v h r =
      let both = pointer-IsDeep slot lawful R copy deep in
      let k = both.copies (some p) (some v) h r in
      let (a, e) = points-is_some slot R k.result v k.after h.next k.after.next k.stands in
      record {
        copy = a;
        after = k.after;
        runs = rw e at k.runs;
        copy_stays = λ h' g.
            both.moves (some a) (some v) k.after h' h.next k.after.next h.next k.after.next
              (rw e at k.stands) (omega arith) (omega arith) g;
        original_stays = λ h' g.
            both.moves (some p) (some v) h h' 0 h.next 0 h.next r (omega arith) (omega arith)
              (λ i x y. g i x y ∙ k.keeps i x y);
      }

object-Isolated :
    {l : Library} {T V : Type 0} (slot : Slot l T) (R : Stands l T V)
    (call : Option ℕ → M l (Option ℕ)) (type : Option ℕ → RuntimeObject) (p : ℕ) (v : V)
    (h : Heap l)
    → Isolated slot R call same p v h
    → Isolated slot R (λ q. call q >>= λ c. pure (as_object type c)) (as_object type) p v h
object-Isolated slot R call type p v h i = record {
  copy = i.copy;
  after = i.after;
  runs = ground (arith, i.runs);
  copy_stays = i.copy_stays;
  original_stays = i.original_stays;
}

module _ {l : Library} (m : Meaning l) (calls : Calls l) (library : IsDeepLibrary m calls) where
  -- Where the deep copies of the libraries are deep, DeepCopy and DeepCopyObject of a pointer to a
  -- LitestreamReplica answer with a pointer to a copy that stands for the same object, with the same
  -- TypeMeta. The copy goes on to stand for it, whatever is written to cells that were there before,
  -- and so does the original, whatever is written to the cells that the call has taken or to later
  -- ones.
  pub replica_deep_copy-Isolated :
      (p : ℕ) (v : Typed LitestreamReplica) (h : Heap l)
      → Pointed replica_slot (StandsReplica m) (some p) (some v) h 0 h.next
      → Isolated replica_slot (StandsReplica m) (replica_deep_copy calls) same p v h
        × Isolated replica_slot
            (StandsReplica m)
            (replica_deep_copy_object calls)
            (as_object replica_object)
            p
            v
            h
  unfolding replica_deep_copy replica_deep_copy_object
  replica_deep_copy-Isolated p v h r =
      let i =
        copy_pointer-Isolated replica_slot (λ t. refl) _ _ (replica-IsDeep m calls library) p v h
          r in
      (i, object-Isolated _ _ _ replica_object p v h i)

  -- Where the deep copies of the libraries are deep, DeepCopy and DeepCopyObject of a pointer to a
  -- LitestreamRestore answer with a pointer to a copy that stands for the same object, with the same
  -- TypeMeta. The copy goes on to stand for it, whatever is written to cells that were there before,
  -- and so does the original, whatever is written to the cells that the call has taken or to later
  -- ones.
  pub restore_deep_copy-Isolated :
      (p : ℕ) (v : Typed LitestreamRestore) (h : Heap l)
      → Pointed restore_slot (StandsRestore m) (some p) (some v) h 0 h.next
      → Isolated restore_slot (StandsRestore m) (restore_deep_copy calls) same p v h
        × Isolated restore_slot
            (StandsRestore m)
            (restore_deep_copy_object calls)
            (as_object restore_object)
            p
            v
            h
  unfolding restore_deep_copy restore_deep_copy_object
  restore_deep_copy-Isolated p v h r =
      let i =
        copy_pointer-Isolated restore_slot (λ t. refl) _ _ (restore-IsDeep m calls library) p v h
          r in
      (i, object-Isolated _ _ _ restore_object p v h i)

  -- Where the deep copies of the libraries are deep, DeepCopyObject of a pointer to a
  -- LitestreamReplicaList or a LitestreamRestoreList answers with a pointer to a copy that stands for
  -- the same list, with each of its items: no write to cells that were there before changes the copy,
  -- and none to cells that were not changes the original.
  pub list_deep_copy_object-Isolated :
      (p q : ℕ) (v : ListOf (Typed LitestreamReplica)) (w : ListOf (Typed LitestreamRestore))
      (h : Heap l)
      → Pointed replica_list_slot (StandsReplicaList m) (some p) (some v) h 0 h.next
      → Pointed restore_list_slot (StandsRestoreList m) (some q) (some w) h 0 h.next
      → Isolated replica_list_slot
          (StandsReplicaList m)
          (replica_list_deep_copy_object calls)
          (as_object replica_list_object)
          p
          v
          h
        × Isolated restore_list_slot
            (StandsRestoreList m)
            (restore_list_deep_copy_object calls)
            (as_object restore_list_object)
            q
            w
            h
  unfolding replica_list_deep_copy_object replica_list_deep_copy restore_list_deep_copy_object
      restore_list_deep_copy
  list_deep_copy_object-Isolated p q v w h r o = (
    object-Isolated _ _ _ replica_list_object p v h (
        copy_pointer-Isolated replica_list_slot (λ t. refl) _ _
          (replica_list-IsDeep m calls library) p v h r),
    object-Isolated _ _ _ restore_list_object q w h (
        copy_pointer-Isolated restore_list_slot (λ t. refl) _ _
          (restore_list-IsDeep m calls library) q w h o),
  )
