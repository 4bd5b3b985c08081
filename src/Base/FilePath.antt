-- ===== src/Base/FilePath.antt =====
-- `filepath.Clean`, `filepath.Join` and `filepath.Dir` (the text up to the last slash, cleaned).
pub mod Dir
use Prim.Native.Char.{Char, code}
use Prim.Native.String.{String, ◌++◌}
use mathlib.Core.Bool.{Bool, true, false}
use mathlib.Core.List.{List, [], ◌∷◌, reverse}
use text.Mathlib.Text.{◌==◌}
use sqlite_operator.Base.Tests.{eqb, if◌then◌else◌}
use sqlite_operator.Base.Splits.{split_on}

abbrev is_rooted : String → Bool
is_rooted String.[] = false
is_rooted (String.◌∷◌ c _) = eqb (code c) b'/'

abbrev but_last : List String → List String
but_last [] = []
but_last (x ∷ []) = []
but_last (x ∷ y ∷ l) = x ∷ but_last (y ∷ l)

-- `..` drops the component before it, and stays only at the start of a path that is not rooted.
abbrev go_up : Bool → List String → List String
go_up rooted [] = if rooted then [] else ".." ∷ []
go_up rooted (top ∷ stack) = if top == ".." then ".." ∷ top ∷ stack else stack

clean_parts : Bool → List String → List String → List String
clean_parts rooted stack [] = reverse stack
clean_parts rooted stack (part ∷ parts) =
    clean_parts rooted
      (if part == ""
        then stack
        else if part == "."
        then stack
        else if part == ".."
        then go_up rooted stack
        else part ∷ stack)
      parts

join : List String → String
join [] = ""
join (x ∷ []) = x
join (x ∷ y ∷ l) = x ++ "/" ++ join (y ∷ l)

abbrev rendered : Bool → List String → String
rendered true parts = "/" ++ join parts
rendered false [] = "."
rendered false (part ∷ parts) = join (part ∷ parts)

-- `filepath.Clean`
unfoldable pub clean : String → String
unfolding clean_parts join
clean path = rendered (is_rooted path) (clean_parts (is_rooted path) [] (split_on b'/' path))

-- `filepath.Join` of two elements, of which those that are empty are left out
unfoldable pub join_path : String → String → String
join_path a b = if a == "" then (if b == "" then "" else clean b) else clean (a ++ "/" ++ b)

unfoldable pub dir : String → String
unfolding clean_parts join
dir path =
    rendered (is_rooted path) (clean_parts (is_rooted path) [] (but_last (split_on b'/' path)))
