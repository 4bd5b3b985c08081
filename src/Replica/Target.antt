-- ===== src/Replica/Target.antt =====
-- reconcileTargetAnnotation.
use sqlite_operator.Base.{
  String, ◌<>◌, Bool, ◌&&◌, Option, none, some, [], ◌∷◌, ◌==◌, exceeds, if◌then◌else◌,
}
use sqlite_operator.Base.Strings.{decimal, quote}
use sqlite_operator.Base.Dict.{Dict, index}
use sqlite_operator.Kube.Errors.{Err, Result, ok, err}
use sqlite_operator.Kube.Client.{
  Client, M, pure, ◌>>=◌, ◌>>◌, send, WorkloadTarget, emit_event, replica_owner, warning,
}
use sqlite_operator.Api.Replica.{LitestreamReplica, annotation_inject, annotation_config}
use sqlite_operator.Restore.Annotations.{inject_enabled}
use sqlite_operator.Workload.{
  name, type_name, desired_replicas, pod_template_annotations, pod_template_labels,
  get_target_workload, patch_workload_pod_template,
}

abbrev pub config_ref : LitestreamReplica → String
config_ref db = db.metadata.namespace <> "/" <> db.metadata.name

-- Whether the pod template has the two annotations and the label.
unfoldable pub is_annotated : LitestreamReplica → WorkloadTarget → Bool
is_annotated db wt =
    index (pod_template_annotations wt) annotation_inject == inject_enabled
    && index (pod_template_annotations wt) annotation_config == config_ref db
    && index (pod_template_labels wt) annotation_inject == inject_enabled

abbrev pub too_many_replicas : WorkloadTarget → String
too_many_replicas wt =
    "target "
    <> type_name wt
    <> " "
    <> quote (name wt)
    <> " has "
    <> decimal (desired_replicas wt)
    <> " replicas; Litestream requires exactly 1 writer"

abbrev pub added_annotations : LitestreamReplica → Dict
added_annotations db = (annotation_inject, inject_enabled) ∷ (annotation_config, config_ref db) ∷ []

abbrev pub added_labels : Dict
added_labels = (annotation_inject, inject_enabled) ∷ []

module _ {S : Type 0} (client : Client S) where
  -- What follows the look-up of the workload.
  unfoldable pub annotate_target : LitestreamReplica → Result WorkloadTarget → M S (Option Err)
  unfolding patch_workload_pod_template
  annotate_target db (err e) = pure (some e)
  annotate_target db (ok wt) =
      if exceeds (desired_replicas wt) 1
      then (do
        send client
            (emit_event (replica_owner db) warning "ReplicaCountExceeded" (too_many_replicas wt))
        pure none)
      else if is_annotated db wt
      then pure none
      else patch_workload_pod_template client wt (added_annotations db) added_labels

  unfoldable pub reconcile_target_annotation : LitestreamReplica → M S (Option Err)
  reconcile_target_annotation db = get_target_workload client db >>= annotate_target db
