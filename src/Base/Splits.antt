-- ===== src/Base/Splits.antt =====
-- Texts cut at every occurrence of a character, and the round trip with their parts.
use Prim.Native.Char.{Char, code}
use Prim.Native.String.{String, ◌++◌}
use Prim.Native.String.append
use mathlib.Core.Path.{◌≡◌, refl}
use mathlib.Core.Bool.{Bool, true, not, ◌&&◌}
use mathlib.Core.List.{List, [], ◌∷◌}
use native.Mathlib.Omega.{arith}
use Prim.Native.Nat.{ℕ}
use sqlite_operator.Base.Tests.{eqb, if◌then◌else◌}

-- No character of a text has a code.
abbrev pub lacks : ℕ → String → Bool
lacks k String.[] = true
lacks k (String.◌∷◌ c s) = not (eqb (code c) k) && lacks k s

abbrev pub push_char : Char → List String → List String
push_char c [] = String.◌∷◌ c String.[] ∷ []
push_char c (s ∷ parts) = String.◌∷◌ c s ∷ parts

-- The texts between the characters with a code.
abbrev pub split_on : ℕ → String → List String
split_on k String.[] = "" ∷ []
split_on k (String.◌∷◌ c s) =
    let rest = split_on k s in if eqb (code c) k then "" ∷ rest else push_char c rest

pub split_on-lacks : (k : ℕ) (s : String) → lacks k s ≡ true → split_on k s ≡ s ∷ []
split_on-lacks k String.[] l = refl
split_on-lacks k (String.◌∷◌ c s) l = ground (arith, split_on-lacks k s)

pub split_on-append :
    (c : Char) (s t : String)
    → lacks (code c) s ≡ true
    → split_on (code c) (s ++ String.◌∷◌ c t) ≡ s ∷ split_on (code c) t
split_on-append c String.[] t l = rw (append.nil (String.◌∷◌ c t)) (ground arith)
split_on-append c (String.◌∷◌ d s) t l =
    let rest = split_on-append c s t in rw (append.cons d s (String.◌∷◌ c t)) (ground (arith, rest))

pub lacks-append :
    (k : ℕ) (s t : String) → lacks k s ≡ true → lacks k t ≡ true → lacks k (s ++ t) ≡ true
lacks-append k String.[] t a b = rw (append.nil t) b
lacks-append k (String.◌∷◌ c s) t a b = rw (append.cons c s t) (ground (arith, lacks-append k s t))
