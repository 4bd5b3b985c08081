-- ===== src/Config.antt =====
-- internal/controller/litestreamreplica_controller.go: the text of litestream.yml.
pub mod Laws
pub mod Lines
use text.Mathlib.Text.{starts_with}
use sqlite_operator.Base.{
  String, ◌<>◌, Bool, true, false, not, ◌&&◌, Option, none, some, ◌==◌, if◌then◌else◌,
}
use sqlite_operator.Base.Strings.{trim_right_slashes}
use sqlite_operator.Api.Replica.{S3Destination, BackupSpec, LitestreamReplica}

abbrev pub paused_config : String
paused_config = "dbs: []\n"

abbrev pub litestream_config_key : String
litestream_config_key = "litestream.yml"

-- A scheme is put before an endpoint that has none.
unfoldable pub with_scheme : String → String
with_scheme endpoint =
    if not (starts_with endpoint "http://") && not (starts_with endpoint "https://")
    then "http://" <> endpoint
    else endpoint

-- A line that is left out where its value is empty.
abbrev optional_line : String → String → String
optional_line label value = if value == "" then "" else "      " <> label <> ": " <> value <> "\n"

endpoint_lines : S3Destination → String
unfolding with_scheme
endpoint_lines s3 =
    if s3.endpoint == ""
    then ""
    else "      endpoint: " <> with_scheme s3.endpoint <> "\n      force-path-style: true\n"

path_line : S3Destination → String
path_line s3 = if s3.path == "" then "" else "      path: " <> trim_right_slashes s3.path <> "\n"

replica_lines : BackupSpec → S3Destination → String
unfolding endpoint_lines path_line
replica_lines backup s3 =
    "    replica:\n      type: s3\n"
    <> endpoint_lines s3
    <> "      bucket: "
    <> s3.bucket
    <> "\n"
    <> path_line s3
    <> optional_line "retention" backup.retention.duration
    <> optional_line "sync-interval" backup.sync_interval

abbrev pub database_file : LitestreamReplica → String
database_file db = db.spec.database_path <> "/" <> db.spec.database_name

backup_lines : BackupSpec → String
unfolding replica_lines
backup_lines backup = elim backup.destination.s3 [
  | none ↦ ""
  | some s3 ↦ if backup.enabled then replica_lines backup s3 else ""
]

-- What follows the path's label.
rest_lines : LitestreamReplica → String
unfolding backup_lines
rest_lines db = database_file db <> "\n" <> backup_lines db.spec.backup

-- `buildLitestreamConfigYAML`
unfoldable pub build_litestream_config_yaml : LitestreamReplica → String
unfolding rest_lines
build_litestream_config_yaml db = "addr: \":9090\"\ndbs:\n  - path: " <> rest_lines db
