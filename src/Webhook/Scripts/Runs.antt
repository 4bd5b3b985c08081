-- ===== src/Webhook/Scripts/Runs.antt =====
-- What the scripts of the init containers do, as the shell runs them: the tests in their order, the
-- calls of litestream and sqlite3 as answers that are given, and the exit code.
use sqlite_operator.Base.{ℕ, Bool, true, false, not, eqb, if◌then◌else◌}

-- What the scripts find on the volume.
pub record Volumes : Type 0 where
  pub has_database : Bool
  pub has_state_dir : Bool

-- An answer of `litestream restore`: its exit code, and whether a file stands at the output path
-- afterwards.
pub record RestoreAnswer : Type 0 where
  pub exit_code : ℕ
  pub has_output : Bool

-- The archive check. The probe file is removed before and after, and is not kept here.
unfoldable pub run_archive_check : Volumes → RestoreAnswer → ℕ
run_archive_check v probe =
    if v.has_database
    then (if v.has_state_dir
        then 0
        else if not (eqb probe.exit_code 0)
        then 1
        else if probe.has_output
        then 1
        else 0)
    else if not (eqb probe.exit_code 0)
    then 1
    else if probe.has_output
    then 1
    else 0

-- How the integrity check ends: sqlite3 may be missing from the image.
pub data Integrity : Type 0 where
  no_sqlite3 intact corrupt : Integrity

abbrev pub check_integrity : Integrity → ℕ
check_integrity no_sqlite3 = 0
check_integrity intact = 0
check_integrity corrupt = 1

-- The automatic restore: the exit code, and whether a database stands there at the end.
unfoldable pub run_auto_restore : Volumes → RestoreAnswer → Integrity → ℕ × Bool
run_auto_restore v answer check =
    if v.has_database
    then (0, true)
    else if not (eqb answer.exit_code 0)
    then (0, answer.has_output)
    else if not answer.has_output
    then (0, false)
    else (check_integrity check, true)
