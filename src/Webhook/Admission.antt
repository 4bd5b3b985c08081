-- ===== src/Webhook/Admission.antt =====
-- What the validating webhook admits.
use sqlite_operator.Base.{
  String, ◌≡◌, ◌≢◌, ◌↔◌, ◌⊎◌, refl, true, false, Option, none, some, List, [], ◌∷◌, ◌++◌, arith,
  eq_iff, exceeds, or_default, pos,
}
use sqlite_operator.Kube.Objects.{WorkloadObject}
use sqlite_operator.Kube.Errors.{Result, ok, err}
use sqlite_operator.Api.Replica.{LitestreamReplica, BackupSpec, S3Destination}
use sqlite_operator.Webhook.Validator.{
  Reader, key, target_errors, name_errors, path_errors, required_text, destination_errors,
  backup_errors, replica_errors, live_errors, check_workload_replicas, validate_litestream_replica,
}

-- One of the two targets is named, and not both.
abbrev pub NamesOneTarget : LitestreamReplica → Type 0
NamesOneTarget db =
    ((db.spec.target_deployment ≢ "") × (db.spec.target_stateful_set ≡ ""))
    ⊎ ((db.spec.target_deployment ≡ "") × (db.spec.target_stateful_set ≢ ""))

abbrev HasDestination : Option S3Destination → Type 0
HasDestination none = ⊥
HasDestination (some s3) = (s3.bucket ≢ "") × (s3.secret_ref ≢ "")

-- A backup that is enabled has a destination with a bucket and credentials.
abbrev pub IsBackedUp : BackupSpec → Type 0
IsBackedUp backup = backup.enabled ≡ true → HasDestination backup.destination.s3

-- A workload that was found asks for one replica at most.
abbrev pub HasOneWriter : Result WorkloadObject → Type 0
HasOneWriter (err e) = Unit {0}
HasOneWriter (ok o) = exceeds (or_default o.replicas (pos 1)) 1 ≡ false

-- So does the target, of the kind that is named.
abbrev pub HasOneTargetWriter : Reader → LitestreamReplica → Type 0
HasOneTargetWriter c db =
    (db.spec.target_stateful_set ≡ ""
      → HasOneWriter (c.get_deployment (key db db.spec.target_deployment)))
    × (db.spec.target_stateful_set ≢ ""
        → HasOneWriter (c.get_stateful_set (key db db.spec.target_stateful_set)))

-- What an admitted LitestreamReplica is, over the live workloads.
pub record IsAdmissible (c : Reader) (db : LitestreamReplica) : Type 0 where
  pub one_target : NamesOneTarget db
  pub named : db.spec.database_name ≢ ""
  pub placed : db.spec.database_path ≢ ""
  pub backed_up : IsBackedUp db.spec.backup
  pub one_writer : HasOneTargetWriter c db

nil-append_iff : {A : Type 0} (xs ys : List A) → (xs ++ ys ≡ []) ↔ ((xs ≡ []) × (ys ≡ []))
nil-append_iff [] ys = (λ h. (refl, h), λ h. h.1)
nil-append_iff (x ∷ xs) ys = (λ h. cc, λ h. cc (h.0))

target_errors_iff : (db : LitestreamReplica) → (target_errors db ≡ []) ↔ NamesOneTarget db
unfolding target_errors
target_errors_iff db =
    ground (arith, eq_iff db.spec.target_deployment "", eq_iff db.spec.target_stateful_set "")

required_text_iff :
    (path detail value : String) → (required_text path detail value ≡ []) ↔ (value ≢ "")
required_text_iff path detail value = ground (arith, eq_iff value "")

destination_errors_iff : (d : Option S3Destination) → (destination_errors d ≡ []) ↔ HasDestination d
destination_errors_iff none = (λ h. cc, λ h. absurd h)
destination_errors_iff (some s3) = ground (arith, eq_iff s3.bucket "", eq_iff s3.secret_ref "")

backup_errors_iff : (b : BackupSpec) → (backup_errors b ≡ []) ↔ IsBackedUp b
unfolding backup_errors
backup_errors_iff b = ground (arith, destination_errors_iff b.destination.s3)

replica_errors_iff :
    (path kind name : String) (r : Result WorkloadObject)
    → (replica_errors path kind name r ≡ []) ↔ HasOneWriter r
replica_errors_iff path kind name (err e) = (λ h. tt, λ h. refl)
replica_errors_iff path kind name (ok o) = ground arith

live_errors_iff :
    (c : Reader) (db : LitestreamReplica)
    → NamesOneTarget db
    → (live_errors (some c) db ≡ []) ↔ HasOneTargetWriter c db
unfolding live_errors check_workload_replicas
live_errors_iff c db t = ground (
  arith,
  eq_iff db.spec.target_deployment "",
  eq_iff db.spec.target_stateful_set "",
  replica_errors_iff "spec.targetDeployment" "Deployment" db.spec.target_deployment
      (c.get_deployment (key db db.spec.target_deployment)),
  replica_errors_iff "spec.targetStatefulSet" "StatefulSet" db.spec.target_stateful_set
      (c.get_stateful_set (key db db.spec.target_stateful_set)),
)

nil-append_all_iff :
    {A : Type 0} (a b c d e : List A)
    → (a ++ (b ++ (c ++ (d ++ e))) ≡ []) ↔ ((a ≡ []) × (b ≡ []) × (c ≡ []) × (d ≡ []) × (e ≡ []))
nil-append_all_iff a b c d e = ground (
  arith,
  nil-append_iff a (b ++ (c ++ (d ++ e))),
  nil-append_iff b (c ++ (d ++ e)),
  nil-append_iff c (d ++ e),
  nil-append_iff d e,
)

-- With a client, the validator finds no error exactly where the object is admissible over its answers.
pub validate_iff :
    (c : Reader) (db : LitestreamReplica)
    → ((validate_litestream_replica (some c) db).1 ≡ []) ↔ IsAdmissible c db
unfolding validate_litestream_replica
validate_iff c db =
    let split =
      nil-append_all_iff (target_errors db) (name_errors db) (path_errors db)
        (backup_errors db.spec.backup) (live_errors (some c) db) in
    (
      λ h.
          let (t, n, p, b, l) = split.0 h in
          let one = (target_errors_iff db).0 t in
          record {
            one_target = one;
            named = (required_text_iff _ _ _).0 n;
            placed = (required_text_iff _ _ _).0 p;
            backed_up = (backup_errors_iff db.spec.backup).0 b;
            one_writer = (live_errors_iff c db one).0 l;
          },
      λ i. split.1 (
        (target_errors_iff db).1 i.one_target,
        (required_text_iff _ _ _).1 i.named,
        (required_text_iff _ _ _).1 i.placed,
        (backup_errors_iff db.spec.backup).1 i.backed_up,
        (live_errors_iff c db i.one_target).1 i.one_writer,
      ),
    )
