-- ===== src/Tests/Failures.antt =====
-- The theorems on a restore that fails or waits, on its annotations, and on the end of a reconcile of
-- the source, at examples.
use sqlite_operator.Base.{◌≡◌, inl, refl, true, String, [], ◌∷◌}
use sqlite_operator.Kube.Errors.{ok}
use sqlite_operator.Kube.Objects.{Job, job_failed}
use sqlite_operator.Kube.Client.{Client, start, deployment}
use sqlite_operator.Api.Replica.{annotation_pause}
use sqlite_operator.Api.Restore.{running}
use sqlite_operator.Workload.{target_for_restore}
use sqlite_operator.Restore.Annotations.{has_annotation}
use sqlite_operator.Restore.Phases.{job_verdict, broken}
use sqlite_operator.Restore.Reconcile.{reconcile_restore}
use sqlite_operator.Restore.Returns.{Settles, reconcile_restore-Settles}
use sqlite_operator.Restore.Recovery.{IsBroken, Recovers, reconcile_restore-Recovers}
use sqlite_operator.Replica.Reconcile.{reconcile_replica}
use sqlite_operator.Replica.Cycle.{Completes, reconcile_replica-Completes}
use sqlite_operator.Tests.Objects.{
  undo_in, fake, Cluster, bucket, orders, paused_orders, workload, serving, drained, completed_job,
}
use sqlite_operator.Tests.Stores.{store}

reconcile_restore-Settles_example :
    Settles (reconcile_restore fake (undo_in running) (start drained))
reconcile_restore-Settles_example =
    reconcile_restore-Settles fake (undo_in running) drained refl refl

abbrev broken_job : Job
broken_job = record completed_job {
  conditions = record { type = job_failed; holds = true; message = "no space left" } ∷ [];
}

abbrev failing : Cluster
failing = record drained { job = ok broken_job }

-- A client that finds the source whatever the cluster is.
abbrev steady : Client Cluster
steady = record fake { get_replica = λ n. λ c. ok paused_orders }

stopped_target : target_for_restore steady paused_orders failing ≡ ok (deployment (workload 0 0))
unfolding target_for_restore
stopped_target = refl

is_paused : has_annotation paused_orders annotation_pause ≡ true
unfolding has_annotation
is_paused = refl

job_is_broken : job_verdict broken_job.conditions ≡ broken "no space left"
unfolding job_verdict
job_is_broken = refl

failing-IsBroken : IsBroken steady (undo_in running) failing
failing-IsBroken = record {
  source = paused_orders;
  s3 = bucket;
  target = deployment (workload 0 0);
  job = broken_job;
  message = "no space left";
  watching = inl refl;
  found = refl;
  backed_up = refl;
  targeted = stopped_target;
  stopped = refl;
  scaled = refl;
  wanted = refl;
  paused = is_paused;
  reachable = λ c. tt;
  watched = refl;
  is_broken = job_is_broken;
}

reconcile_restore-Recovers_example :
    Recovers (undo_in running) (reconcile_restore steady (undo_in running) (start failing)).1
reconcile_restore-Recovers_example =
    reconcile_restore-Recovers steady (undo_in running) failing failing-IsBroken

abbrev constant_hash : String → String
constant_hash sql = "0123456789abcdef"

reconcile_replica-Completes_example :
    Completes (reconcile_replica fake store constant_hash orders (start serving))
reconcile_replica-Completes_example =
    reconcile_replica-Completes fake store constant_hash orders (start serving)
