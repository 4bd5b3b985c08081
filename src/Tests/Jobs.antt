-- ===== src/Tests/Jobs.antt =====
-- The Jobs of the example restore and the files they are about.
use sqlite_operator.Base.{◌≡◌, refl, []}
use sqlite_operator.Base.FilePath.{dir}
use sqlite_operator.Restore.Jobs.{build_restore_job, build_validation_job}
use sqlite_operator.Restore.Files.{
  last, job_args, MountsTarget, build_restore_job-config_path, jobs-MountsTarget,
}
use sqlite_operator.Config.{build_litestream_config_yaml}
use sqlite_operator.Config.Lines.{config_path}
use sqlite_operator.Tests.Objects.{undo, orders, bucket}

build_restore_job-config_path_example :
    last (job_args (build_restore_job undo orders bucket "undo-restore"))
    ≡ config_path (build_litestream_config_yaml orders)
build_restore_job-config_path_example =
    build_restore_job-config_path undo orders bucket "undo-restore" refl

jobs-MountsTarget_example :
    MountsTarget undo "/data" (build_restore_job undo orders bucket "undo-restore")
    × MountsTarget undo "/data" (build_validation_job undo orders "undo-validate")
jobs-MountsTarget_example =
    jobs-MountsTarget undo orders bucket "undo-restore" "undo-validate" "data" [] "orders.db" refl
      refl refl

-- A path of two parts, one with dots and slashes that are cleaned.
dir_is_cleaned : dir "/data//app/./x/../orders.db" ≡ "/data/app"
unfolding dir
dir_is_cleaned = refl
