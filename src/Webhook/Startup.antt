-- ===== src/Webhook/Startup.antt =====
-- Which init container guards the start of a pod, and what its script lets through.
use sqlite_operator.Base.{◌≡◌, ◌≢◌, ◌↔◌, ◌⊎◌, String, true, false, arith, eq_iff}
use sqlite_operator.Base.Dict.{index}
use sqlite_operator.Api.Replica.{LitestreamReplica, annotation_skip_archive_check}
use sqlite_operator.Restore.Annotations.{annotate}
use sqlite_operator.Webhook.Scripts.Runs.{
  Volumes, RestoreAnswer, run_archive_check, Integrity, run_auto_restore,
}
use sqlite_operator.Webhook.Injector.{
  any_named, archive_check_container_name, archive_check_container, auto_restore_container,
  startup_containers,
}

-- With autoRestore, the annotation that skips the archive check changes nothing: the init
-- containers that come first are those of the object without it.
auto_restore_ignores_skip :
    (db : LitestreamReplica) (volume : String)
    → db.spec.backup.auto_restore ≡ true
    → startup_containers (annotate db annotation_skip_archive_check) volume
      ≡ startup_containers db volume
unfolding startup_containers annotate auto_restore_container
auto_restore_ignores_skip db volume h = rw h (ground arith)

-- The archive check is injected exactly where the backup is enabled, autoRestore is off and the
-- annotation that skips the check is not "true".
pub startup_containers_iff :
    (db : LitestreamReplica) (volume : String)
    → (any_named archive_check_container_name (startup_containers db volume) ≡ true) ↔ (
        (db.spec.backup.enabled ≡ true)
        × (db.spec.backup.auto_restore ≡ false)
        × (index db.metadata.annotations annotation_skip_archive_check ≢ "true"))
unfolding startup_containers auto_restore_container archive_check_container
startup_containers_iff db volume =
    ground (arith, eq_iff (index db.metadata.annotations annotation_skip_archive_check) "true")

-- The archive check lets a pod start exactly where the database and the state directory are there,
-- or the probe of the backup succeeds and restores nothing.
run_archive_check_iff :
    (v : Volumes) (probe : RestoreAnswer)
    → (run_archive_check v probe ≡ 0) ↔ (
        ((v.has_database ≡ true) × (v.has_state_dir ≡ true))
        ⊎ ((probe.exit_code ≡ 0) × (probe.has_output ≡ false)))
unfolding run_archive_check
run_archive_check_iff v probe = ground arith

-- On a volume without a database, a `litestream restore` that fails stops the archive check, while
-- the automatic restore lets the pod start.
failed_restore_verdicts :
    (v : Volumes) (answer : RestoreAnswer) (check : Integrity)
    → v.has_database ≡ false
    → answer.exit_code ≢ 0
    → (run_archive_check v answer ≡ 1) × ((run_auto_restore v answer check).0 ≡ 0)
unfolding run_archive_check run_auto_restore
failed_restore_verdicts v answer check d e = ground arith
