-- ===== src/Config/Lines.antt =====
-- Reading the path of the database back from litestream.yml.

use Prim.Native.Char.{code}
use Prim.Native.String.append
use text.Mathlib.TextLemmas.{append_assoc}
use sqlite_operator.Base.{
  String, ◌≡◌, ◌∙◌, sym, ap, refl, Bool, true, false, Option, none, some, List, [], ◌∷◌,
  if◌then◌else◌, arith, eqb, ◌<>◌,
}
use sqlite_operator.Base.Splits.{lacks, split_on, split_on-append, lacks-append}
use sqlite_operator.Api.Replica.{LitestreamReplica}
use sqlite_operator.Config.{database_file, backup_lines, rest_lines, build_litestream_config_yaml}

abbrev cut_first : Bool → Option String → Option String
cut_first true r = r
cut_first false r = none

-- What follows a prefix.
abbrev pub strip_prefix : String → String → Option String
strip_prefix String.[] s = some s
strip_prefix (String.◌∷◌ c p) String.[] = none
strip_prefix (String.◌∷◌ c p) (String.◌∷◌ d s) =
    let rest = strip_prefix p s in if eqb (code c) (code d) then rest else none

abbrev or_else : Option String → Option String → Option String
or_else none r = r
or_else (some v) r = some v

-- The value of the first line that has a label.
abbrev pub first_value : String → List String → Option String
first_value label [] = none
first_value label (l ∷ ls) = or_else (strip_prefix label l) (first_value label ls)

-- The path of the first database in a litestream.yml, read as a line.
abbrev pub config_path : String → Option String
config_path text = first_value "  - path: " (split_on b'\n' text)

strip_prefix-append : (p s : String) → strip_prefix p (p <> s) ≡ some s
strip_prefix-append String.[] s = rw (append.nil s) refl
strip_prefix-append (String.◌∷◌ c p) s =
    rw (append.cons c p s) (ground (arith, strip_prefix-append p s))

abbrev line : String → String → String
line l rest = l <> String.◌∷◌ "\n" rest

first_lines :
    (rest : String)
    → "addr: \":9090\"\ndbs:\n  - path: " <> rest
      ≡ line "addr: \":9090\"" (line "dbs:" ("  - path: " <> rest))
first_lines rest =
    let second = line "dbs:" "  - path: " in
    append_assoc "addr: \":9090\"" (String.◌∷◌ "\n" second) rest
    ∙ ap (λ t. "addr: \":9090\"" <> t)
        (append.cons "\n" second rest
          ∙ ap (λ t. String.◌∷◌ "\n" t)
              (append_assoc "dbs:" (String.◌∷◌ "\n" "  - path: ") rest
                ∙ ap (λ t. "dbs:" <> t) (append.cons "\n" "  - path: " rest)))

split-line :
    (l rest : String)
    → lacks b'\n' l ≡ true
    → split_on b'\n' (line l rest) ≡ l ∷ split_on b'\n' rest
split-line l rest h = split_on-append "\n" l rest h

path_line_end :
    (file rest : String)
    → "  - path: " <> (file <> ("\n" <> rest)) ≡ line ("  - path: " <> file) rest
path_line_end file rest =
    sym (append_assoc "  - path: " file ("\n" <> rest))
    ∙ ap (λ t. ("  - path: " <> file) <> t)
        (append.cons "\n" "" rest ∙ ap (λ t. String.◌∷◌ "\n" t) (append.nil rest))

config_lines :
    (file rest : String)
    → lacks b'\n' file ≡ true
    → split_on b'\n' ("addr: \":9090\"\ndbs:\n  - path: " <> (file <> ("\n" <> rest)))
      ≡ "addr: \":9090\"" ∷ "dbs:" ∷ ("  - path: " <> file) ∷ split_on b'\n' rest
config_lines file rest h =
    ap (λ t. split_on b'\n' t)
      (first_lines (file <> ("\n" <> rest))
        ∙ ap (λ t. line "addr: \":9090\"" (line "dbs:" t)) (path_line_end file rest))
    ∙ (split-line "addr: \":9090\"" (line "dbs:" (line ("  - path: " <> file) rest)) refl
        ∙ ap (λ ls. "addr: \":9090\"" ∷ ls)
            (split-line "dbs:" (line ("  - path: " <> file) rest) refl
              ∙ ap (λ ls. "dbs:" ∷ ls)
                  (split-line ("  - path: " <> file) rest
                    (lacks-append b'\n' "  - path: " file refl h))))

-- The path in litestream.yml, read from its line, is the path of the database file, where that has
-- no line break.
pub config_path_lem :
    (db : LitestreamReplica)
    → lacks b'\n' (database_file db) ≡ true
    → config_path (build_litestream_config_yaml db) ≡ some (database_file db)
unfolding build_litestream_config_yaml rest_lines
config_path_lem db l =
    ap (first_value "  - path: ") (config_lines (database_file db) _ l)
    ∙ ap (λ v. or_else v (first_value "  - path: " (split_on b'\n' (backup_lines db.spec.backup))))
        (strip_prefix-append "  - path: " (database_file db))
