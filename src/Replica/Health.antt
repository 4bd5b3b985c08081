-- ===== src/Replica/Health.antt =====
-- When a backup counts as healthy, and when the archive check counts as failed.
use sqlite_operator.Base.{
  String, ◌≡◌, ◌↔◌, refl, Bool, true, false, not, ◌&&◌, ◌||◌, none, some, List, [], ◌∷◌, ◌++◌, ◌==◌,
  pos, eq_ℤ, ltb, arith,
}
use sqlite_operator.Kube.Errors.{Result, ok, err}
use sqlite_operator.Kube.Objects.{Pod, ContainerStatus}
use sqlite_operator.Replica.Pods.{
  litestream_sidecar, is_failure_reason, Tally, waiting_failure, exit_failure, is_empty_list,
  inspect_status, inspect_statuses, inspect_pods, sidecar_state, any_failed, archive_state,
  first_failed,
}

abbrev pub is_running : ContainerStatus → Bool
is_running cs = cs.state.running

-- A container that waits for a reason that is a failure, or has ended with an exit code but 0.
abbrev pub is_failing : ContainerStatus → Bool
is_failing cs =
    elim cs.state.waiting [ none ↦ false | some reason ↦ is_failure_reason reason ]
    || elim cs.state.terminated [ none ↦ false | some code ↦ not (eq_ℤ code (pos 0)) ]

-- Whether a sidecar among the containers of a pod passes a test.
abbrev pub any_in : (ContainerStatus → Bool) → List ContainerStatus → Bool
any_in test [] = false
any_in test (cs ∷ css) = (cs.name == litestream_sidecar && test cs) || any_in test css

abbrev pub any_sidecar : (ContainerStatus → Bool) → List Pod → Bool
any_sidecar test [] = false
any_sidecar test (pod ∷ pods) = any_in test pod.container_statuses || any_sidecar test pods

-- What a tally says, as tests.
abbrev Says : Tally → Bool → Bool → Bool → Type 0
Says t running failing found =
    (ltb 0 t.running_count ≡ running)
    × (is_empty_list t.failed_pods ≡ not failing)
    × (t.none_found ≡ not found)

abbrev is_any : ContainerStatus → Bool
is_any cs = true

is_empty_list-append :
    (a b : List String) → is_empty_list (a ++ b) ≡ (is_empty_list a && is_empty_list b)
is_empty_list-append [] b = refl
is_empty_list-append (x ∷ a) b = refl

failures_empty :
    (pod : String) (cs : ContainerStatus) (l : List String)
    → is_empty_list
        ((l ++ waiting_failure pod cs.state.waiting) ++ exit_failure pod cs.state.terminated)
      ≡ (is_empty_list l && not (is_failing cs))
failures_empty pod cs l = ground (
  arith,
  is_empty_list-append (l ++ waiting_failure pod cs.state.waiting)
      (exit_failure pod cs.state.terminated),
  is_empty_list-append l (waiting_failure pod cs.state.waiting),
)

inspect_status-Says :
    (pod : String) (cs : ContainerStatus) (t : Tally) (r f n : Bool)
    → Says t r f n
    → Says
        (inspect_status pod cs t)
        (r || (cs.name == litestream_sidecar && is_running cs))
        (f || (cs.name == litestream_sidecar && is_failing cs))
        (n || (cs.name == litestream_sidecar && is_any cs))
unfolding inspect_status
inspect_status-Says pod cs t r f n h = ground (arith, failures_empty pod cs t.failed_pods)

inspect_statuses-Says :
    (pod : String) (css : List ContainerStatus) (t : Tally) (r f n : Bool)
    → Says t r f n
    → Says
        (inspect_statuses pod css t)
        (r || any_in is_running css)
        (f || any_in is_failing css)
        (n || any_in is_any css)
unfolding inspect_statuses
inspect_statuses-Says pod [] t r f n h = ground arith
inspect_statuses-Says pod (cs ∷ css) t r f n h =
    let here = inspect_status-Says pod cs t r f n h in
    let rest = inspect_statuses-Says pod css (inspect_status pod cs t) _ _ _ here in ground arith

inspect_pods-Says :
    (pods : List Pod) (t : Tally) (r f n : Bool)
    → Says t r f n
    → Says
        (inspect_pods pods t)
        (r || any_sidecar is_running pods)
        (f || any_sidecar is_failing pods)
        (n || any_sidecar is_any pods)
unfolding inspect_pods
inspect_pods-Says [] t r f n h = ground arith
inspect_pods-Says (pod ∷ pods) t r f n h =
    let css = pod.container_statuses in
    let here = inspect_statuses-Says pod.metadata.name css t r f n h in
    let rest = inspect_pods-Says pods (inspect_statuses pod.metadata.name css t) _ _ _ here in
    ground arith

any_in-found :
    (css : List ContainerStatus) → any_in is_running css ≡ true → any_in is_any css ≡ true
any_in-found [] h = h
any_in-found (cs ∷ css) h = ground (arith, any_in-found css)

any_sidecar-found :
    (pods : List Pod) → any_sidecar is_running pods ≡ true → any_sidecar is_any pods ≡ true
any_sidecar-found [] h = h
any_sidecar-found (pod ∷ pods) h =
    ground (arith, any_sidecar-found pods, any_in-found pod.container_statuses)

-- The backup counts as healthy exactly where some sidecar of the pods is running, and no sidecar
-- waits for a failure or has ended with an exit code other than 0.
pub sidecar_state_iff :
    (pods : List Pod)
    → ((sidecar_state (ok pods)).0 ≡ true)
      ↔ ((any_sidecar is_running pods ≡ true) × (any_sidecar is_failing pods ≡ false))
unfolding sidecar_state
sidecar_state_iff pods =
    let fresh : Tally = record { running_count = 0; failed_pods = []; none_found = true } in
    let (r, f, n) = inspect_pods-Says pods fresh false false false (refl, refl, refl) in
    ground (arith, any_sidecar-found pods)

-- Whether the archive check of some pod has ended with an error.
abbrev pub any_archive_failure : List Pod → Bool
any_archive_failure [] = false
any_archive_failure (pod ∷ pods) =
    any_failed pod.init_container_statuses || any_archive_failure pods

first_failed_lem : (pods : List Pod) → (first_failed pods).0 ≡ any_archive_failure pods
unfolding first_failed
first_failed_lem [] = refl
first_failed_lem (pod ∷ pods) = ground (arith, first_failed_lem pods)

-- The archive check counts as failed exactly where the backup is enabled, the pods can be listed,
-- and the check of one of them has ended with an exit code other than 0.
archive_state_iff :
    (enabled : Bool) (r : Result (List Pod))
    → ((archive_state enabled r).0 ≡ true)
      ↔ ((enabled ≡ true) × (pods : List Pod) × (r ≡ ok pods) × (any_archive_failure pods ≡ true))
unfolding archive_state
archive_state_iff false r = (λ h. cc, λ h. cc (h.0))
archive_state_iff true (err e) = (λ h. cc, λ h. let (t, p, q, a) = h in cc q)
archive_state_iff true (ok pods) =
    let l = first_failed_lem pods in
    (λ h. (refl, pods, refl, cc (h, l)), λ h. let (t, p, q, a) = h in cc (q, a, l))
