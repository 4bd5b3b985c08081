-- ===== src/Webhook/Validator.antt =====
-- internal/webhook/litestreamreplica_webhook.go: validation of a LitestreamReplica on creation,
-- update and deletion.
use sqlite_operator.Base.{
  String, ◌<>◌, Bool, not, ◌&&◌, ◌||◌, Option, none, some, List, [], ◌∷◌, ◌++◌, ◌==◌, ℤ, pos,
  exceeds, or_default, if◌then◌else◌,
}
use sqlite_operator.Base.Strings.{decimal}
use sqlite_operator.Kube.Objects.{NamespacedName, WorkloadObject}
use sqlite_operator.Kube.Errors.{Result, ok, err}
use sqlite_operator.Api.Replica.{LitestreamReplica, BackupSpec, S3Destination}

-- An error of `field.ErrorList`, at a path: a value that is missing, or one that is wrong.
pub data FieldError : Type 0 where
  required : String → String → FieldError
  invalid : String → String → String → FieldError

abbrev pub both_set : LitestreamReplica → Bool
both_set db = not (db.spec.target_deployment == "") && not (db.spec.target_stateful_set == "")

abbrev pub neither_set : LitestreamReplica → Bool
neither_set db = db.spec.target_deployment == "" && db.spec.target_stateful_set == ""

unfoldable pub target_errors : LitestreamReplica → List FieldError
target_errors db =
    if both_set db
    then invalid "spec.targetStatefulSet" db.spec.target_stateful_set
        "targetStatefulSet and targetDeployment are mutually exclusive; set exactly one"
      ∷ []
    else if neither_set db
    then required "spec.targetDeployment"
        "one of targetDeployment or targetStatefulSet must reference an existing workload"
      ∷ []
    else []

-- An error where a text is empty.
abbrev pub required_text : String → String → String → List FieldError
required_text path detail value = if value == "" then required path detail ∷ [] else []

abbrev pub name_errors : LitestreamReplica → List FieldError
name_errors db =
    required_text "spec.databaseName" "databaseName must be set (e.g. \"app.db\")"
      db.spec.database_name

abbrev pub path_errors : LitestreamReplica → List FieldError
path_errors db =
    required_text "spec.databasePath" "databasePath must be set (e.g. \"/data\")"
      db.spec.database_path

abbrev pub destination_errors : Option S3Destination → List FieldError
destination_errors none =
    required "spec.backup.destination.s3"
      "backup.destination.s3 is required when backup.enabled is true"
    ∷ []
destination_errors (some s3) =
    required_text "spec.backup.destination.s3.bucket" "bucket must be set" s3.bucket
    ++ required_text "spec.backup.destination.s3.secretRef"
        "secretRef must name a Secret containing S3 credentials" s3.secret_ref

unfoldable pub backup_errors : BackupSpec → List FieldError
backup_errors backup = if backup.enabled then destination_errors backup.destination.s3 else []

unfoldable pub warnings : LitestreamReplica → List String
warnings db =
    if db.spec.backup.auto_restore
    then "autoRestore: true carries a known restore-corruption risk (Litestream upstream #1164/#1220). The integrity gate (PRAGMA quick_check) will catch corruption before the app starts, but consider using a LitestreamRestore CR for controlled, auditable recovery instead."
      ∷ []
    else []

-- The part of the client that the validator reads through.
pub record Reader : Type 0 where
  pub get_deployment : NamespacedName → Result WorkloadObject
  pub get_stateful_set : NamespacedName → Result WorkloadObject

abbrev object_replicas : WorkloadObject → ℤ
object_replicas o = or_default o.replicas (pos 1)

-- The error of a workload that was found. A failed look-up adds none: one that is not found is put
-- off, and any other is logged.
abbrev pub replica_errors : String → String → String → Result WorkloadObject → List FieldError
replica_errors path kind name (err e) = []
replica_errors path kind name (ok o) =
    if exceeds (object_replicas o) 1
    then invalid path name (
        "target "
        <> kind
        <> " has "
        <> decimal (object_replicas o)
        <> " replicas; Litestream requires exactly 1 writer")
      ∷ []
    else []

abbrev pub key : LitestreamReplica → String → NamespacedName
key db n = record { namespace = db.metadata.namespace; name = n }

-- `checkWorkloadReplicas`
unfoldable pub check_workload_replicas : Reader → LitestreamReplica → List FieldError
check_workload_replicas c db =
    if db.spec.target_stateful_set == ""
    then replica_errors "spec.targetDeployment" "Deployment" db.spec.target_deployment
        (c.get_deployment (key db db.spec.target_deployment))
    else replica_errors "spec.targetStatefulSet" "StatefulSet" db.spec.target_stateful_set
        (c.get_stateful_set (key db db.spec.target_stateful_set))

-- The check is skipped where there is no client, or not exactly one target.
unfoldable pub live_errors : Option Reader → LitestreamReplica → List FieldError
live_errors none db = []
live_errors (some c) db = if both_set db || neither_set db then [] else check_workload_replicas c db

-- `validateLitestreamReplica`: the warnings, and the errors, none of which admits the object
unfoldable pub validate_litestream_replica :
    Option Reader → LitestreamReplica → List String × List FieldError
unfolding target_errors backup_errors warnings live_errors check_workload_replicas
validate_litestream_replica c db = (
  warnings db,
  target_errors db
      ++ (name_errors db ++ (path_errors db ++ (backup_errors db.spec.backup ++ live_errors c db))),
)

abbrev pub validate_create : Option Reader → LitestreamReplica → List String × List FieldError
validate_create c db = validate_litestream_replica c db

abbrev pub validate_update :
    Option Reader → LitestreamReplica → LitestreamReplica → List String × List FieldError
validate_update c old new = validate_litestream_replica c new

abbrev pub validate_delete : Option Reader → LitestreamReplica → List String × List FieldError
validate_delete c db = ([], [])
