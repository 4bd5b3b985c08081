-- ===== src/Webhook/Scripts.antt =====
-- internal/webhook/sidecar_injector.go: the shell scripts of the injected init containers, as texts
-- and as what they do.
pub mod Runs
pub mod InitSql
use sqlite_operator.Base.{String, ◌<>◌}

-- The script of the archive check, for the path of the database file and of the directory in which
-- Litestream keeps its state.
unfoldable pub archive_check_script : String → String → String
archive_check_script db_full_path state_dir =
    "\nDB_PATH=\"" <> db_full_path <> "\"\nSTATE_DIR=\"" <> state_dir
    <> "\"\nif [ -f \"${DB_PATH}\" ]; then\n  if [ -d \"${STATE_DIR}\" ]; then\n"
    <> "    echo \"archive-check: database and litestream state directory exist, skipping check\"\n"
    <> "    exit 0\n  fi\n  echo \"archive-check: database exists but litestream state directory missing at ${STATE_DIR}\"\n"
    <> "  echo \"archive-check: this may indicate a fresh or recreated database; probing S3 for existing backup...\"\n"
    <> "fi\nif [ ! -f \"${DB_PATH}\" ]; then\n  echo \"archive-check: database file missing at ${DB_PATH}, probing S3 for backup data...\"\n"
    <> "fi\nPROBE=\"${DB_PATH}.archive-check-probe\"\nrm -f \"${PROBE}\"\n"
    <> "RESTORE_OUTPUT=$(litestream restore -if-replica-exists -config /etc/litestream/litestream.yml -o \"${PROBE}\" \"${DB_PATH}\" 2>&1)\n"
    <> "RESTORE_EXIT=$?\nif [ ${RESTORE_EXIT} -ne 0 ]; then\n  rm -f \"${PROBE}\"\n"
    <> "  echo \"archive-check FAILED: litestream restore encountered an error.\"\n"
    <> "  echo \"archive-check: litestream output: ${RESTORE_OUTPUT}\"\n"
    <> "  echo \"archive-check: Examine the litestream output above for details.\"\n"
    <> "  echo \"archive-check: To recover: create a LitestreamRestore CR (optionally with -timestamp for an earlier point).\"\n"
    <> "  echo \"archive-check: To bypass (start fresh): set annotation litestream.io/skip-archive-check=true\"\n"
    <> "  exit 1\nfi\nif [ -f \"${PROBE}\" ]; then\n  rm -f \"${PROBE}\"\n"
    <> "  echo \"archive-check FAILED: S3 has existing backup data but local database is missing or untracked.\"\n"
    <> "  echo \"This likely means data was lost (PVC wiped, DB deleted, or DB recreated without restoring first).\"\n"
    <> "  echo \"To recover: create a LitestreamRestore CR targeting this PVC.\"\n"
    <> "  echo \"To bypass (start fresh): set annotation litestream.io/skip-archive-check=true\"\n"
    <> "  exit 1\nfi\necho \"archive-check: no S3 backup found, safe to proceed (first-time setup)\"\n"
    <> "exit 0\n"

-- The script of the automatic restore.
unfoldable pub auto_restore_script : String → String
auto_restore_script db_full_path =
    "\nDB_PATH=\"" <> db_full_path
    <> "\"\nif [ -f \"${DB_PATH}\" ]; then\n  echo \"litestream-restore: database exists, skipping restore\"\n"
    <> "  exit 0\nfi\necho \"litestream-restore: database missing, attempting restore from backup...\"\n"
    <> "litestream restore -if-db-not-exists -if-replica-exists -config /etc/litestream/litestream.yml \"${DB_PATH}\"\n"
    <> "RESTORE_EXIT=$?\nif [ $RESTORE_EXIT -ne 0 ]; then\n  echo \"litestream-restore: restore failed or no backup found, starting fresh\"\n"
    <> "  exit 0\nfi\nif [ ! -f \"${DB_PATH}\" ]; then\n  echo \"litestream-restore: no backup found, starting fresh\"\n"
    <> "  exit 0\nfi\necho \"litestream-restore: restore complete, running integrity check...\"\n"
    <> "if ! command -v sqlite3 > /dev/null 2>&1; then\n  echo \"WARNING: sqlite3 not found in image; skipping integrity check\"\n"
    <> "  exit 0\nfi\nif ! sqlite3 \"${DB_PATH}\" \"PRAGMA quick_check;\" | grep -q \"^ok$\"; then\n"
    <> "  echo \"ERROR: integrity check failed on restored database.\"\n"
    <> "  echo \"The S3 backup may contain corruption (Litestream upstream issue #1164/#1220).\"\n"
    <> "  echo \"Options:\"\n  echo \"  1. Use a LitestreamRestore CR with a different -timestamp to find a clean snapshot.\"\n"
    <> "  echo \"  2. Set annotation litestream.io/skip-archive-check=true to start fresh.\"\n"
    <> "  exit 1\nfi\necho \"litestream-restore: integrity check passed\"\n" <> "exit 0\n"

-- The script that applies init.sql, for the directory of the database and its file.
unfoldable pub init_script : String → String → String
init_script database_path db_full_path =
    "\nHASH=$(sha256sum /init/init.sql | cut -d' ' -f1)\nMARKER=\"" <> database_path
    <> "/.db-init-${HASH}\"\nif [ ! -f \"${MARKER}\" ]; then\n  sqlite3 \"" <> db_full_path
    <> "\" < /init/init.sql\n  touch \"${MARKER}\"\n  echo \"db-init: applied init SQL (hash ${HASH})\"\n"
    <> "else\n  echo \"db-init: already applied (hash ${HASH}), skipping\"\n" <> "fi\n"
