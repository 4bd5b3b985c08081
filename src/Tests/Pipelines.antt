-- ===== src/Tests/Pipelines.antt =====
-- An admitted object, its target and a pod of it.
use sqlite_operator.Base.{◌≡◌, refl, some, [], ◌∷◌}
use sqlite_operator.Base.Dict.{index}
use sqlite_operator.Kube.Errors.{ok}
use sqlite_operator.Kube.Client.{start, deployment}
use sqlite_operator.Api.Replica.{annotation_config}
use sqlite_operator.Workload.{target_workload, pod_template_annotations}
use sqlite_operator.Restore.Annotations.{replica_key}
use sqlite_operator.Replica.Target.{config_ref, reconcile_target_annotation}
use sqlite_operator.Replica.Reconcile.{pod_to_litestream_replica}
use sqlite_operator.Webhook.Validator.{validate_litestream_replica}
use sqlite_operator.Webhook.Injector.{resolve_litestream_replica}
use sqlite_operator.System.Pipeline.{reader_at, Marked, validate-marks}
use sqlite_operator.Tests.Objects.{orders, workload, fake, serving}
use sqlite_operator.Tests.Controllers.{pod, plain_codec, found}

no_errors : (validate_litestream_replica (some (reader_at fake serving)) orders).1 ≡ []
unfolding validate_litestream_replica
no_errors = refl

target_found : target_workload fake orders serving ≡ ok (deployment (workload 1 1))
unfolding target_workload
target_found = refl

refers : index pod.metadata.annotations annotation_config ≡ config_ref orders
unfolding index
refers = refl

validate-marks_example :
    (m : Marked fake serving orders
      (deployment (workload 1 1))
      (reconcile_target_annotation fake orders (start serving)).1.sent)
    × (index (pod_template_annotations m.new) annotation_config ≡ config_ref orders)
    × (resolve_litestream_replica plain_codec found pod "apps" ≡ ok (some orders))
    × (pod_to_litestream_replica pod ≡ replica_key orders ∷ [])
validate-marks_example =
    validate-marks fake serving orders plain_codec found (deployment (workload 1 1)) pod "apps"
      no_errors target_found (refl, (refl, (refl, (refl, tt)))) (λ h. cc) refl refers
