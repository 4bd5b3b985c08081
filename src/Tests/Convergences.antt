-- ===== src/Tests/Convergences.antt =====
-- Two runs of the step that marks the target.
use sqlite_operator.Base.{◌≡◌, false, arith}
use sqlite_operator.Kube.Client.{start}
use sqlite_operator.Workload.{target_workload}
use sqlite_operator.Replica.Target.{reconcile_target_annotation}
use sqlite_operator.Replica.Convergence.{
  patches_workload, StoresTarget, reconcile_target_annotation-converges,
}
use sqlite_operator.Tests.Objects.{fake, orders, serving}
use sqlite_operator.Tests.Restores.{fake-IsCalm}

fake-StoresTarget : StoresTarget fake orders
unfolding target_workload
fake-StoresTarget = record {
  stores_target = λ old o c t e. ground (arith, t);
  keeps_target = λ x c p. ground (arith, p);
}

reconcile_target_annotation-converges_example :
    patches_workload
      (reconcile_target_annotation fake orders
        (start (reconcile_target_annotation fake orders (start serving)).1.cluster)).1.sent
    ≡ false
reconcile_target_annotation-converges_example =
    reconcile_target_annotation-converges fake orders fake-IsCalm fake-StoresTarget serving
