-- ===== src/Workload.antt =====
-- internal/controller/workload.go: the target Deployment or StatefulSet of a LitestreamReplica.
use sqlite_operator.Base.{
  String, ◌<>◌, Bool, false, Option, none, some, ◌==◌, ℤ, pos, eq_ℤ, or_default, if◌then◌else◌,
}
use sqlite_operator.Base.Strings.{quote}
use sqlite_operator.Base.Dict.{Dict, insert_all}
use sqlite_operator.Kube.Objects.{WorkloadObject, NamespacedName}
use sqlite_operator.Kube.Errors.{Err, Result, ok, err, wrapped}
use sqlite_operator.Kube.Client.{
  WorkloadTarget, deployment, stateful_set, patch_workload, Client, M, pure, reads, send,
}
use sqlite_operator.Api.Replica.{LitestreamReplica}

-- The object under a target, of either kind.
abbrev pub object : WorkloadTarget → WorkloadObject
object (deployment o) = o
object (stateful_set o) = o

-- A target of the same kind over another object.
abbrev pub with_object : WorkloadTarget → WorkloadObject → WorkloadTarget
with_object (deployment _) o = deployment o
with_object (stateful_set _) o = stateful_set o

abbrev pub name : WorkloadTarget → String
name wt = (object wt).metadata.name

abbrev pub type_name : WorkloadTarget → String
type_name (deployment _) = "Deployment"
type_name (stateful_set _) = "StatefulSet"

abbrev pub selector_labels : WorkloadTarget → Dict
selector_labels wt = (object wt).selector_labels

abbrev pub pod_template_annotations : WorkloadTarget → Dict
pod_template_annotations wt = (object wt).template_annotations

abbrev pub pod_template_labels : WorkloadTarget → Dict
pod_template_labels wt = (object wt).template_labels

-- The replicas of the spec, 1 where they are nil.
abbrev pub desired_replicas : WorkloadTarget → ℤ
desired_replicas wt = or_default (object wt).replicas (pos 1)

abbrev pub running_replicas : WorkloadTarget → ℤ
running_replicas wt = (object wt).status_replicas

abbrev pub ready_replicas : WorkloadTarget → ℤ
ready_replicas wt = (object wt).ready_replicas

abbrev wrap_deployment : Result WorkloadObject → Result WorkloadTarget
wrap_deployment (ok o) = ok (deployment o)
wrap_deployment (err e) = err e

abbrev wrap_stateful_set : Result WorkloadObject → Result WorkloadTarget
wrap_stateful_set (ok o) = ok (stateful_set o)
wrap_stateful_set (err e) = err e

abbrev prefix_error : String → Result WorkloadTarget → Result WorkloadTarget
prefix_error prefix (ok wt) = ok wt
prefix_error prefix (err e) = err (wrapped prefix e)

abbrev key : LitestreamReplica → String → NamespacedName
key db n = record { namespace = db.metadata.namespace; name = n }

module _ {S : Type 0} (client : Client S) where
  -- `getTargetWorkloadForRestore`: the error as the client gives it
  unfoldable pub target_for_restore : LitestreamReplica → S → Result WorkloadTarget
  target_for_restore db c =
      if db.spec.target_stateful_set == ""
      then wrap_deployment (client.get_deployment (key db db.spec.target_deployment) c)
      else wrap_stateful_set (client.get_stateful_set (key db db.spec.target_stateful_set) c)

  -- `getTargetWorkload`: the error is wrapped with the kind and the name
  unfoldable pub target_workload : LitestreamReplica → S → Result WorkloadTarget
  target_workload db c =
      if db.spec.target_stateful_set == ""
      then prefix_error ("target Deployment " <> quote db.spec.target_deployment)
          (wrap_deployment (client.get_deployment (key db db.spec.target_deployment) c))
      else prefix_error ("target StatefulSet " <> quote db.spec.target_stateful_set)
          (wrap_stateful_set (client.get_stateful_set (key db db.spec.target_stateful_set) c))

  abbrev pub get_target_workload_for_restore : LitestreamReplica → M S (Result WorkloadTarget)
  get_target_workload_for_restore db = reads (target_for_restore db)

  abbrev pub get_target_workload : LitestreamReplica → M S (Result WorkloadTarget)
  get_target_workload db = reads (target_workload db)

  -- Annotations and labels are added to those of the pod template, by a merge patch.
  unfoldable pub patch_workload_pod_template : WorkloadTarget → Dict → Dict → M S (Option Err)
  unfolding send
  patch_workload_pod_template wt add_annotations add_labels =
      let o = object wt in
      send client (
        patch_workload wt (
          with_object wt (record o {
            template_annotations = insert_all add_annotations o.template_annotations;
            template_labels = insert_all add_labels o.template_labels;
          })))

  abbrev pub has_replicas : WorkloadTarget → ℤ → Bool
  has_replicas wt n = elim (object wt).replicas [ none ↦ false | some m ↦ eq_ℤ m n ]

  -- No patch is sent where the spec has the count already.
  unfoldable pub scale_workload : WorkloadTarget → ℤ → M S (Option Err)
  unfolding send
  scale_workload wt n =
      if has_replicas wt n
      then pure none
      else send client
          (patch_workload wt (with_object wt (record (object wt) { replicas = some n })))
