-- ===== src/Base/FilePath/Dir.antt =====
-- The directory of an absolute path of plain parts.
use Prim.Native.String.{String, ◌++◌ as ◌<>◌}
use Prim.Native.String.append
use mathlib.Core.Path.{◌≡◌, refl, ap, ◌∙◌, sym}
use mathlib.Core.Bool.{Bool, true, not, ◌&&◌}
use mathlib.Core.List.{List, [], ◌∷◌, ◌++◌, reverse, append_assoc, reverse-cons, append-nil}
use native.Mathlib.Omega.{arith}
use text.Mathlib.Text.{◌==◌}
use text.Mathlib.TextLemmas.{append-nil as text_append-nil}
use sqlite_operator.Base.Splits.{lacks, split_on, split_on-append, split_on-lacks}
use sqlite_operator.Base.FilePath.{but_last, clean_parts, join, dir}

-- A part of a path that is neither empty nor "." nor "..", and has no slash.
abbrev pub is_plain : String → Bool
is_plain s = lacks b'/' s && not (s == "") && not (s == ".") && not (s == "..")

abbrev pub all_plain : List String → Bool
all_plain [] = true
all_plain (s ∷ parts) = is_plain s && all_plain parts

-- The path with a slash before each part.
abbrev pub absolute : List String → String
absolute [] = ""
absolute (s ∷ parts) = String.◌∷◌ "/" (s <> absolute parts)

split-absolute :
    (s : String) (parts : List String)
    → lacks b'/' s ≡ true
    → all_plain parts ≡ true
    → split_on b'/' (s <> absolute parts) ≡ s ∷ parts
split-absolute s [] l h = rw (text_append-nil s) (split_on-lacks b'/' s l)
split-absolute s (p ∷ parts) l h =
    split_on-append "/" s (p <> absolute parts) l
    ∙ ap (λ ls. s ∷ ls) (split-absolute p parts (ground arith) (ground arith))

clean_parts-plain :
    (stack parts : List String)
    → all_plain parts ≡ true
    → clean_parts true stack parts ≡ reverse stack ++ parts
unfolding clean_parts
clean_parts-plain stack [] h = sym (append-nil (reverse stack))
clean_parts-plain stack (p ∷ parts) h =
    let rest = clean_parts-plain (p ∷ stack) parts (ground arith) in
    let step : clean_parts true stack (p ∷ parts) ≡ clean_parts true (p ∷ stack) parts =
      ground arith in
    step
    ∙ (rest
        ∙ (ap (λ l. l ++ parts) (reverse-cons p stack)
            ∙ append_assoc (reverse stack) (p ∷ []) parts))

slash-append : (s : String) → "/" <> s ≡ String.◌∷◌ "/" s
slash-append s = append.cons "/" "" s ∙ ap (λ t. String.◌∷◌ "/" t) (append.nil s)

join-absolute :
    (s : String) (parts : List String) → String.◌∷◌ "/" (join (s ∷ parts)) ≡ absolute (s ∷ parts)
unfolding join
join-absolute s [] = ap (λ t. String.◌∷◌ "/" t) (sym (text_append-nil s))
join-absolute s (p ∷ parts) =
    ap (λ t. String.◌∷◌ "/" (s <> t)) (slash-append (join (p ∷ parts)) ∙ join-absolute p parts)

but_last-append :
    (s file : String) (parts : List String) → but_last (s ∷ parts ++ (file ∷ [])) ≡ s ∷ parts
but_last-append s file [] = refl
but_last-append s file (p ∷ parts) = ap (λ l. s ∷ l) (but_last-append p file parts)

all_plain-append :
    (parts : List String) (file : String)
    → all_plain parts ≡ true
    → is_plain file ≡ true
    → all_plain (parts ++ (file ∷ [])) ≡ true
all_plain-append [] file h f = rw f refl
all_plain-append (p ∷ parts) file h f = ground (arith, all_plain-append parts file)

-- The directory of a file in a directory below the root is that directory.
pub dir-absolute :
    (p : String) (parts : List String) (file : String)
    → all_plain (p ∷ parts) ≡ true
    → is_plain file ≡ true
    → dir (absolute ((p ∷ parts) ++ (file ∷ []))) ≡ absolute (p ∷ parts)
unfolding dir clean_parts
dir-absolute p parts file h f =
    ap (λ l. "/" <> join (clean_parts true [] (but_last ("" ∷ l))))
      (split-absolute p (parts ++ (file ∷ [])) (ground arith)
        (all_plain-append parts file (ground arith) f))
    ∙ (ap (λ l. "/" <> join (clean_parts true [] l)) (but_last-append "" file (p ∷ parts))
        ∙ (ap (λ l. "/" <> join l) (clean_parts-plain [] (p ∷ parts) h)
            ∙ (slash-append (join (p ∷ parts)) ∙ join-absolute p parts)))
