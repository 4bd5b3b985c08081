-- ===== src/Base/Strings.antt =====
-- What the code uses of Go's `strings`, `strconv` and `fmt`.
use Prim.Native.Nat.{ℕ, zero, suc, ◌/◌, ◌%◌}
use Prim.Native.Char.{Char, code}
use Prim.Native.String.{String, ◌++◌}
use mathlib.Core.Bool.{Bool, true, false, ◌&&◌, ◌||◌}
use mathlib.Core.Option.{Option, none, some}
use sqlite_operator.Base.Tests.{ltb, eqb, if◌then◌else◌, ℤ, pos, negsuc}

-- The text of one character.
abbrev pub single : Char → String
single c = String.◌∷◌ c String.[]

abbrev pub is_slash : Char → Bool
is_slash c = eqb (code c) b'/'

abbrev is_empty : String → Bool
is_empty String.[] = true
is_empty (String.◌∷◌ _ _) = false

-- One character before a text that has been trimmed: it goes too if nothing is left behind it.
abbrev keep_unless_trailing : Char → String → String
keep_unless_trailing c s = if is_slash c && is_empty s then String.[] else String.◌∷◌ c s

-- `strings.TrimRight(s, "/")`
unfoldable pub trim_right_slashes : String → String
trim_right_slashes String.[] = String.[]
trim_right_slashes (String.◌∷◌ c s) = keep_unless_trailing c (trim_right_slashes s)

abbrev pub cut_step : Char → String → Option (String × String) → Option (String × String)
cut_step c s none = none
cut_step c s (some (before, after)) = some (String.◌∷◌ c before, after)

-- `strings.Cut(s, "/")`: the texts before and after the first slash, `none` where there is none
unfoldable pub cut_slash : String → Option (String × String)
cut_slash String.[] = none
cut_slash (String.◌∷◌ c s) =
    let rest = cut_step c s (cut_slash s) in if is_slash c then some (String.[], s) else rest

-- The character at a position, as a text.
char_at : ℕ → String → String
char_at n String.[] = ""
char_at zero (String.◌∷◌ c s) = single c
char_at (suc n) (String.◌∷◌ c s) = char_at n s

digit : ℕ → String
unfolding char_at
digit n = char_at n "0123456789abcdef"

-- The decimal digits of a number; the fuel is one more than it.
decimal_from : ℕ → ℕ → String
decimal_from zero n = ""
decimal_from (suc fuel) n =
    let leading = decimal_from fuel (n / 10) in
    if ltb n 10 then digit n else leading ++ digit (n % 10)

-- `fmt.Sprintf("%d", n)`
unfoldable pub decimal : ℤ → String
unfolding digit decimal_from
decimal (pos n) = decimal_from (suc n) n
decimal (negsuc n) = "-" ++ decimal_from (suc (suc n)) (suc n)

-- `strconv.Quote` on one character. A character past ASCII is taken to be printable.
escape_control : ℕ → String
unfolding digit
escape_control n =
    if eqb n 7
    then "\\a"
    else if eqb n 8
    then "\\b"
    else if eqb n 9
    then "\\t"
    else if eqb n 10
    then "\\n"
    else if eqb n 11
    then "\\v"
    else if eqb n 12
    then "\\f"
    else if eqb n 13
    then "\\r"
    else "\\x" ++ digit (n / 16) ++ digit (n % 16)

escape : Char → String
unfolding escape_control
escape c =
    if eqb (code c) b'"'
    then "\\\""
    else if eqb (code c) 0x5c
    then "\\\\"
    else if ltb (code c) 0x20 || eqb (code c) 0x7f
    then escape_control (code c)
    else single c

escape_all : String → String
escape_all String.[] = String.[]
escape_all (String.◌∷◌ c s) = escape c ++ escape_all s

-- `fmt.Sprintf("%q", s)`
unfoldable pub quote : String → String
unfolding escape escape_all
quote s = "\"" ++ escape_all s ++ "\""
