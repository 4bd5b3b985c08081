-- ===== src/Replica/Pods.antt =====
-- litestreamContainerState, isFailureReason and archiveCheckState: what the pods of the workload say.
use sqlite_operator.Base.{
  ℕ, ◌+◌, String, ◌<>◌, Bool, true, false, not, ◌&&◌, ◌||◌, Option, none, some, List, [], ◌∷◌, ◌++◌,
  ◌==◌, ℤ, pos, eq_ℤ, ltb, if◌then◌else◌,
}
use sqlite_operator.Base.Strings.{decimal}
use sqlite_operator.Kube.Errors.{Result, ok, err, error_text}
use sqlite_operator.Kube.Objects.{Pod, ContainerStatus}
use sqlite_operator.Kube.Client.{Client, WorkloadTarget}
use sqlite_operator.Api.Replica.{LitestreamReplica}
use sqlite_operator.Workload.{selector_labels}

abbrev pub litestream_sidecar : String
litestream_sidecar = "litestream"

abbrev pub archive_check_container : String
archive_check_container = "litestream-archive-check"

unfoldable pub is_failure_reason : String → Bool
is_failure_reason reason =
    reason == "CrashLoopBackOff"
    || reason == "OOMKilled"
    || reason == "Error"
    || reason == "ImagePullBackOff"
    || reason == "ErrImagePull"

-- What the loops over pods and containers have counted.
pub record Tally : Type 0 where
  pub running_count : ℕ
  pub failed_pods : List String
  pub none_found : Bool

abbrev pub waiting_failure : String → Option String → List String
waiting_failure pod none = []
waiting_failure pod (some reason) =
    if is_failure_reason reason then (pod <> " (" <> reason <> ")") ∷ [] else []

abbrev pub exit_failure : String → Option ℤ → List String
exit_failure pod none = []
exit_failure pod (some code) =
    if eq_ℤ code (pos 0) then [] else (pod <> " (exit " <> decimal code <> ")") ∷ []

unfoldable pub inspect_status : String → ContainerStatus → Tally → Tally
inspect_status pod cs t =
    if cs.name == litestream_sidecar
    then record {
      running_count = if cs.state.running then t.running_count + 1 else t.running_count;
      failed_pods =
          (t.failed_pods ++ waiting_failure pod cs.state.waiting)
          ++ exit_failure pod cs.state.terminated;
      none_found = false;
    }
    else t

unfoldable pub inspect_statuses : String → List ContainerStatus → Tally → Tally
inspect_statuses pod [] t = t
inspect_statuses pod (cs ∷ css) t = inspect_statuses pod css (inspect_status pod cs t)

unfoldable pub inspect_pods : List Pod → Tally → Tally
inspect_pods [] t = t
inspect_pods (pod ∷ pods) t =
    inspect_pods pods (inspect_statuses pod.metadata.name pod.container_statuses t)

abbrev spaced : List String → String
spaced [] = ""
spaced (s ∷ []) = s
spaced (s ∷ t ∷ ss) = s <> " " <> spaced (t ∷ ss)

abbrev pub is_empty_list : List String → Bool
is_empty_list [] = true
is_empty_list (_ ∷ _) = false

-- The switch behind the loops.
abbrev pub verdict : Tally → Bool × String
verdict t =
    if t.none_found
    then (false, "no pods with Litestream sidecar found; waiting for rollout")
    else if not (is_empty_list t.failed_pods)
    then (false, "Litestream sidecar unhealthy in pods: [" <> spaced t.failed_pods <> "]")
    else if ltb 0 t.running_count
    then (true, "Litestream sidecar running in " <> decimal (pos t.running_count) <> " pod(s)")
    else (false, "Litestream sidecar not yet running")

unfoldable pub sidecar_state : Result (List Pod) → Bool × String
unfolding inspect_status inspect_statuses inspect_pods
sidecar_state (err e) = (false, "failed to list pods: " <> error_text e)
sidecar_state (ok pods) =
    verdict (inspect_pods pods (record { running_count = 0; failed_pods = []; none_found = true }))

-- A container status of the archive check that ended with an error.
abbrev pub has_failed : ContainerStatus → Bool
has_failed cs =
    cs.name == archive_check_container
    && elim cs.state.terminated [ none ↦ false | some code ↦ not (eq_ℤ code (pos 0)) ]

abbrev pub any_failed : List ContainerStatus → Bool
any_failed [] = false
any_failed (cs ∷ css) = has_failed cs || any_failed css

unfoldable pub first_failed : List Pod → Bool × String
first_failed [] = (false, "archive check passed")
first_failed (pod ∷ pods) =
    if any_failed pod.init_container_statuses
    then (
      true,
      "archive check failed in pod " <> pod.metadata.name
          <> ": S3 has existing backup data but local database is missing; create a LitestreamRestore CR to recover",
    )
    else first_failed pods

unfoldable pub archive_state : Bool → Result (List Pod) → Bool × String
unfolding first_failed
archive_state false r = (false, "backup not enabled")
archive_state true (err e) = (false, "failed to list pods: " <> error_text e)
archive_state true (ok pods) = first_failed pods

module _ {S : Type 0} (client : Client S) where
  -- `litestreamContainerState`
  unfoldable pub litestream_container_state : LitestreamReplica → WorkloadTarget → S → Bool × String
  litestream_container_state db wt c =
      sidecar_state (client.list_pods db.metadata.namespace (selector_labels wt) c)

  -- `archiveCheckState`
  unfoldable pub archive_check_state : LitestreamReplica → WorkloadTarget → S → Bool × String
  archive_check_state db wt c =
      archive_state db.spec.backup.enabled
        (client.list_pods db.metadata.namespace (selector_labels wt) c)
