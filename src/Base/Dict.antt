-- ===== src/Base/Dict.antt =====
-- Go's `map[string]string` as an association list. A nil map and an empty one read alike, and the
-- code replaces a nil map before it writes to it, so both are `[]`.
use mathlib.Core.Path.{◌≡◌, refl}
use mathlib.Core.Option.{Option, none, some}
use mathlib.Core.List.{List, [], ◌∷◌}
use native.Mathlib.Omega.{arith}
use Prim.Native.String.{String}
use text.Mathlib.Text.{◌==◌}
use text.Mathlib.TextEquality.{eq_iff}
use text.Mathlib.TextPositions.{eq_refl}
use sqlite_operator.Base.Tests.{if◌then◌else◌, or_default}

abbrev pub Dict : Type 0
Dict = List (String × String)

unfoldable pub lookup : String → Dict → Option String
lookup key [] = none
lookup key ((name, held) ∷ rest) =
    let behind = lookup key rest in if name == key then some held else behind

-- `m[k]`, with the zero value "" for an absent key
unfoldable pub index : Dict → String → String
unfolding lookup
index m k = or_default (lookup k m) ""

-- `m[k] = v`
unfoldable pub insert : String → String → Dict → Dict
insert key value [] = (key, value) ∷ []
insert key value ((name, held) ∷ rest) =
    let kept = (name, held) ∷ insert key value rest in
    if name == key then (key, value) ∷ rest else kept

-- `delete(m, k)`. Every entry of the key goes; a real map has at most one.
unfoldable pub erase : String → Dict → Dict
erase k [] = []
erase k ((j, v) ∷ m) = let rest = erase k m in if j == k then rest else (j, v) ∷ rest

-- `for k, v := range added { m[k] = v }`. The keys of `added` differ, so their order is immaterial.
unfoldable pub insert_all : Dict → Dict → Dict
insert_all [] m = m
insert_all ((k, v) ∷ added) m = insert_all added (insert k v m)

pub lookup-insert :
    (key asked value : String) (m : Dict)
    → lookup asked (insert key value m) ≡ (if key == asked then some value else lookup asked m)
unfolding lookup insert
lookup-insert key asked value [] = refl
lookup-insert key asked value ((name, held) ∷ rest) =
    let behind = lookup-insert key asked value rest in
    ground (arith, eq_iff name key, eq_iff name asked, eq_iff key asked)

pub lookup-erase :
    (k j : String) (m : Dict) → lookup j (erase k m) ≡ (if k == j then none else lookup j m)
unfolding lookup erase
lookup-erase k j [] = ground arith
lookup-erase k j ((i, v) ∷ m) =
    ground (arith, eq_iff i k, eq_iff i j, eq_iff k j, lookup-erase k j m)

pub index-insert :
    (k j v : String) (m : Dict) → index (insert k v m) j ≡ (if k == j then v else index m j)
unfolding index
index-insert k j v m = ground (arith, lookup-insert k j v m)

pub index-erase :
    (k j : String) (m : Dict) → index (erase k m) j ≡ (if k == j then "" else index m j)
unfolding index
index-erase k j m = ground (arith, lookup-erase k j m)

pub index-insert_self : (k v : String) (m : Dict) → index (insert k v m) k ≡ v
index-insert_self k v m = simp (index-insert, eq_refl)
