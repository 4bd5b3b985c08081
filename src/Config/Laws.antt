-- ===== src/Config/Laws.antt =====
-- The rendered litestream.yml and the paused one.
use Prim.Native.Char.{Char, code}
use Prim.Native.String.{String, ◌∷◌, ◌++◌}
use Prim.Native.String.append
use sqlite_operator.Base.{ℕ, ◌≡◌, ◌≢◌, ap, arith, ◌∙◌, sym}
use sqlite_operator.Api.Replica.{LitestreamReplica}
use sqlite_operator.Config.{paused_config, rest_lines, build_litestream_config_yaml}

-- The code of the first character, 0 for the empty text.
abbrev first_code : String → ℕ
first_code String.[] = 0
first_code (c ∷ s) = code c

first_code-append : (c : Char) (s t : String) → first_code ((c ∷ s) ++ t) ≡ code c
first_code-append c s t = ap first_code (append.cons c s t)

-- The rendered configuration of no LitestreamReplica is the paused one: a test for the paused text
-- tells the two apart, whatever the paths, names and destination.
pub build_litestream_config_yaml-ne-paused_config :
    (db : LitestreamReplica) → build_litestream_config_yaml db ≢ paused_config
unfolding build_litestream_config_yaml
build_litestream_config_yaml-ne-paused_config db e = absurd (
    omega (
      arith,
      sym (first_code-append "a" "ddr: \":9090\"\ndbs:\n  - path: " (rest_lines db))
          ∙ ap first_code e,
    ))
