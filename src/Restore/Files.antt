-- ===== src/Restore/Files.antt =====
-- The files that the Jobs of a restore are about: where the volume is mounted, and the database that
-- litestream looks up.
use sqlite_operator.Base.{
  String, ◌≡◌, ◌∙◌, sym, ap, refl, true, false, Option, none, some, List, [], ◌∷◌, ◌++◌,
}
use sqlite_operator.Base.Splits.{lacks}
use sqlite_operator.Base.FilePath.{dir}
use sqlite_operator.Base.FilePath.Dir.{is_plain, all_plain, absolute, dir-absolute}
use sqlite_operator.Kube.Objects.{Container, Volume, VolumeMount, persistent_volume_claim, Job}
use sqlite_operator.Api.Replica.{S3Destination, LitestreamReplica}
use sqlite_operator.Api.Restore.{LitestreamRestore}
use sqlite_operator.Config.{database_file, build_litestream_config_yaml}
use sqlite_operator.Config.Lines.{config_path, config_path_lem}
use sqlite_operator.Restore.Jobs.{
  restore_options, restore_args, build_restore_job, build_validation_job,
}

abbrev pub last : {A : Type 0} → List A → Option A
last [] = none
last (x ∷ []) = some x
last (x ∷ y ∷ l) = last (y ∷ l)

abbrev pub first : {A : Type 0} → List A → Option A
first [] = none
first (x ∷ l) = some x

abbrev args_of : Option Container → List String
args_of none = []
args_of (some k) = k.args

abbrev mounts_of : Option Container → List VolumeMount
mounts_of none = []
mounts_of (some k) = k.volume_mounts

-- What the first container of a Job is given, and the first volume and where it is mounted.
abbrev pub job_args : Job → List String
job_args job = args_of (first job.pod_spec.containers)

abbrev pub job_mount : Job → Option VolumeMount
job_mount job = first (mounts_of (first job.pod_spec.containers))

abbrev pub job_volume : Job → Option Volume
job_volume job = first job.pod_spec.volumes

abbrev mounted : String → Option VolumeMount
mounted path = some (record { name = "target"; mount_path = path; read_only = false })

-- A Job that has the claim of a restore mounted at a path, to write to.
abbrev pub MountsTarget : LitestreamRestore → String → Job → Type 0
MountsTarget restore path job =
    (job_volume job
      ≡ some (record { name = "target"; source = persistent_volume_claim restore.spec.target_pvc }))
    × (job_mount job ≡ mounted path)

last-append : {A : Type 0} (xs : List A) (x : A) → last (xs ++ (x ∷ [])) ≡ some x
last-append [] x = refl
last-append (y ∷ []) x = refl
last-append (y ∷ z ∷ xs) x = last-append (z ∷ xs) x

module _ (restore : LitestreamRestore) (db : LitestreamReplica) where
  -- The last argument of the restore Job is the path that stands in the litestream.yml which the
  -- restore's ConfigMap gets, where the path of the database file has no line break.
  pub build_restore_job-config_path :
      (s3 : S3Destination) (job_name : String)
      → lacks b'\n' (database_file db) ≡ true
      → last (job_args (build_restore_job restore db s3 job_name))
        ≡ config_path (build_litestream_config_yaml db)
  unfolding build_restore_job restore_args
  build_restore_job-config_path s3 job_name l =
      last-append (restore_options restore) (database_file db) ∙ sym (config_path_lem db l)

  -- Where the target path is absolute, with plain parts and a directory below the root, both Jobs of
  -- the restore have its claim mounted at the directory of the file, to write to.
  pub jobs-MountsTarget :
      (s3 : S3Destination) (restore_job validation_job p : String) (parts : List String)
      (file : String)
      → all_plain (p ∷ parts) ≡ true
      → is_plain file ≡ true
      → restore.spec.target_path ≡ absolute ((p ∷ parts) ++ (file ∷ []))
      → MountsTarget restore (absolute (p ∷ parts)) (build_restore_job restore db s3 restore_job)
        × MountsTarget restore
            (absolute (p ∷ parts))
            (build_validation_job restore db validation_job)
  unfolding build_restore_job build_validation_job
  jobs-MountsTarget s3 restore_job validation_job p parts file h f e =
      let here = ap dir e ∙ dir-absolute p parts file h f in
      ((refl, ap mounted here), (refl, ap mounted here))
