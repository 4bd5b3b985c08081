-- ===== src/Restore/Phases/Common.antt =====
-- What the handlers of the phases share.
use sqlite_operator.Base.{
  ℕ, String, ◌<>◌, Bool, true, Option, none, some, List, [], ◌∷◌, ◌==◌, if◌then◌else◌,
}
use sqlite_operator.Base.Dict.{index}
use sqlite_operator.Kube.Objects.{
  NamespacedName, ConfigMap, JobCondition, JobConditionType, job_complete, job_failed,
}
use sqlite_operator.Kube.Errors.{Err, is_already_exists}
use sqlite_operator.Kube.Client.{emit_event, restore_owner, normal, Client, M, send, Outcome}
use sqlite_operator.Api.Replica.{LitestreamReplica}
use sqlite_operator.Api.Restore.{LitestreamRestore}
use sqlite_operator.Config.{paused_config, litestream_config_key}

-- 5 * time.Second
abbrev pub restore_requeue_interval : ℕ
restore_requeue_interval = 5

-- `return ctrl.Result{}, e` and `return ctrl.Result{RequeueAfter: restoreRequeueInterval}, e`
abbrev pub ended : Option Err → Outcome
ended e = record { requeue_after = 0; error = e }

abbrev pub again : Option Err → Outcome
again e = record { requeue_after = restore_requeue_interval; error = e }

-- Whether the paused text stands in the ConfigMap.
abbrev pub is_paused_config : ConfigMap → Bool
is_paused_config cm = index cm.content litestream_config_key == paused_config

abbrev pub config_key : LitestreamReplica → NamespacedName
config_key db = record {
  namespace = db.metadata.namespace;
  name = db.metadata.name <> "-litestream";
}

abbrev pub job_key : LitestreamRestore → String → NamespacedName
job_key restore n = record { namespace = restore.metadata.namespace; name = n }

-- What the loop over a Job's conditions stops at: the first that is Complete or Failed, and true.
pub data JobVerdict : Type 0 where
  succeeded still_running : JobVerdict
  broken : String → JobVerdict

abbrev condition_verdict : JobConditionType → Bool → String → JobVerdict → JobVerdict
condition_verdict job_complete true message rest = succeeded
condition_verdict job_failed true message rest = broken message
condition_verdict _ _ message rest = rest

unfoldable pub job_verdict : List JobCondition → JobVerdict
job_verdict [] = still_running
job_verdict (cond ∷ conds) = condition_verdict cond.type cond.holds cond.message (job_verdict conds)

-- What makes the creation of a Job fail: any error but that it exists already.
abbrev pub creation_failure : Option Err → Option Err
creation_failure none = none
creation_failure (some e) = if is_already_exists e then none else some e

module _ {S : Type 0} (client : Client S) (restore : LitestreamRestore) where
  unfoldable pub event : String → String → M S (Option Err)
  unfolding send
  event reason message = send client (emit_event (restore_owner restore) normal reason message)
