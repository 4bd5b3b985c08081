-- ===== src/Api/Restore.antt =====
-- api/v1/litestreamrestore_types.go
use sqlite_operator.Base.{ℕ, String, Bool, Option, ℤ}
use sqlite_operator.Kube.Objects.{ObjectMeta}

-- The constants of the phase, the empty text of a new object, and any other text.
pub data RestorePhase : Type 0 where
  no_phase pending pausing scaling_down running validating scaling_up complete failed : RestorePhase
  unknown : String → RestorePhase

pub record LitestreamRestoreSpec : Type 0 where
  pub source_ref : String
  pub target_pvc : String
  pub target_path : String
  pub timestamp : String
  pub image : String
  pub force : Bool
  pub run_as_user : Option ℤ
  pub run_as_group : Option ℤ

pub record LitestreamRestoreStatus : Type 0 where
  pub phase : RestorePhase
  pub job_name : String
  pub original_replicas : Option ℤ
  pub start_time : Option ℕ
  pub completion_time : Option ℕ
  pub message : String

pub record LitestreamRestore : Type 0 where
  pub metadata : ObjectMeta
  pub spec : LitestreamRestoreSpec
  pub status : LitestreamRestoreStatus
