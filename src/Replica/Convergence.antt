-- ===== src/Replica/Convergence.antt =====
-- A target that the replica controller has marked is left alone from then on.
use sqlite_operator.Base.{
  ◌≡◌, ◌∙◌, refl, Bool, true, false, none, List, [], ◌∷◌, ◌||◌, exceeds, arith, Bool-cases, inl,
  inr,
}
use sqlite_operator.Kube.Errors.{ok, Result-cases}
use sqlite_operator.Kube.Objects.{WorkloadObject}
use sqlite_operator.Kube.Client.{Client, start, Write, patch_workload, WorkloadTarget}
use sqlite_operator.Api.Replica.{LitestreamReplica}
use sqlite_operator.Workload.{
  with_object, target_workload, desired_replicas, patch_workload_pod_template,
}
use sqlite_operator.Replica.Target.{is_annotated, annotate_target, reconcile_target_annotation}
use sqlite_operator.Replica.Handoff.{with_marks, with_marks-Marks}
use sqlite_operator.Restore.Progress.{IsCalm}

abbrev pub is_workload_patch : Write → Bool
is_workload_patch (patch_workload old new) = true
is_workload_patch _ = false

abbrev pub patches_workload : List Write → Bool
patches_workload [] = false
patches_workload (patch_workload old new ∷ xs) = true
patches_workload (_ ∷ xs) = patches_workload xs

module _ {S : Type 0} (client : Client S) (db : LitestreamReplica) where
  -- What the server is relied on to do with the target: a patch of it that is accepted is read, and no
  -- other write changes it.
  pub record StoresTarget : Type 0 where
    pub stores_target :
        (old : WorkloadTarget) (o : WorkloadObject) (c : S)
        → target_workload client db c ≡ ok old
        → (client.send (patch_workload old (with_object old o)) c).0 ≡ none
        → target_workload client db (client.send (patch_workload old (with_object old o)) c).1
          ≡ ok (with_object old o)
    pub keeps_target :
        (x : Write) (c : S)
        → is_workload_patch x ≡ false
        → target_workload client db (client.send x c).1 ≡ target_workload client db c

  -- A target that is refused, or has the marks, is not patched.
  is_settled : WorkloadTarget → Bool
  is_settled wt = exceeds (desired_replicas wt) 1 || is_annotated db wt

  settled-patches :
      (wt : WorkloadTarget) (c : S)
      → is_settled wt ≡ true
      → target_workload client db c ≡ ok wt
      → patches_workload (reconcile_target_annotation client db (start c)).1.sent ≡ false
  unfolding reconcile_target_annotation annotate_target is_settled
  settled-patches wt c s t = ground (arith, s, t)

  module _ (calm : IsCalm client) (storing : StoresTarget) (c : S) where
    annotate_target-settles :
        (wt : WorkloadTarget)
        → target_workload client db c ≡ ok wt
        → (new : WorkloadTarget) × (is_settled new ≡ true)
          × (target_workload client db (annotate_target client db (ok wt) (start c)).1.cluster
              ≡ ok new)
    unfolding annotate_target is_settled patch_workload_pod_template
    annotate_target-settles wt t = elim (Bool-cases (exceeds (desired_replicas wt) 1)) [
      | inl e ↦ (wt, rw e refl, rw e (storing.keeps_target _ c refl ∙ t))
      | inr e ↦ elim (Bool-cases (is_annotated db wt)) [
        | inl a ↦ (wt, rw (e, a) refl, rw (e, a) t)
        | inr a ↦ (
          with_marks db wt,
          ground (arith, (with_marks-Marks db wt).marked),
          rw (e, a) (storing.stores_target wt _ c t (calm.sends _ c)),
        )
      ]
    ]

    -- On a server that keeps the laws of StoresTarget and fails no write: the step that marks the
    -- target, run a second time where the first has left the cluster, patches no workload, whether the
    -- target is missing, refused for its replicas, marked already, or marked by the first run.
    pub reconcile_target_annotation-converges :
        patches_workload
          (reconcile_target_annotation client db
            (start (reconcile_target_annotation client db (start c)).1.cluster)).1.sent
        ≡ false
    unfolding reconcile_target_annotation annotate_target
    reconcile_target_annotation-converges = elim (Result-cases (target_workload client db c)) [
      | inl (wt, t) ↦
          let (new, s, u) = annotate_target-settles wt t in
          rw t (settled-patches new (annotate_target client db (ok wt) (start c)).1.cluster s u)
      | inr (e, t) ↦ rw (t, t) refl
    ]
