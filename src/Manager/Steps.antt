-- ===== src/Manager/Steps.antt =====
-- The process follows its plan.
use sqlite_operator.Base.{ℕ, ◌≡◌, ◌∙◌, ap, refl, Option, none, some, List, [], ◌∷◌, ◌++◌, arith}
use sqlite_operator.Manager.Tls.{Flags, CertWatcher}
use sqlite_operator.Manager.Calls.{
  add_client_go_scheme, add_database_scheme, new_cert_watcher, get_config, new_manager,
  complete_controller, new_kube_client, register_injector, add_cert_watcher, add_healthz_check,
  add_readyz_check, start_manager, Call, Platform, Main, Ending, going, exited, panicked, continue,
  ◌>>=◌, ◌>>◌, attempt, must, perform,
}
use sqlite_operator.Manager.Main.{
  validator_setup, replica_controller, restore_controller, init_schemes, watch_webhook_certificate,
  watch_metrics_certificate, set_up_controllers, set_up_webhooks, add_watcher, start_up, main,
}
use sqlite_operator.Manager.Plan.{
  webhook_watcher, metrics_watcher, each, plan, failure, verdict, run_plan,
}

abbrev result : {A : Type 0} → A → Ending Unit → Ending A
result a (going _) = going a
result a (exited n) = exited n
result a panicked = panicked

module _ (platform : Platform) where
  -- A step makes the calls of a list, until one ends the process, and else has a value.
  record Makes {A : Type 0} (m : Main A) (xs : List Call) (a : A) : Type 0 where
    made :
        (log : List Call)
        → m log ≡ (result a (run_plan platform xs log).0, (run_plan platform xs log).1)

  continue-then :
      (e : Ending Unit) (m k n : Main Unit)
      → ((log : List Call) → m log ≡ (k >> n) log)
      → (log : List Call)
      → continue e (λ _. m) log
        ≡ (let (e', log') = continue e (λ _. k) log in continue e' (λ _. n) log')
  continue-then (going t) m k n h log = h log
  continue-then (exited c) m k n h log = refl
  continue-then panicked m k n h log = refl

  run_plan-append :
      (xs ys : List Call) (log : List Call)
      → run_plan platform (xs ++ ys) log ≡ (run_plan platform xs >> run_plan platform ys) log
  run_plan-append [] ys log = refl
  run_plan-append (x ∷ xs) ys log =
      continue-then (verdict (platform log x) (failure x)) (run_plan platform (xs ++ ys))
        (run_plan platform xs) (run_plan platform ys) (run_plan-append xs ys) (x ∷ log)

  continue-Makes :
      {A B : Type 0} (f : A → Main B) (a : A) (b : B) (ys : List Call)
      → Makes (f a) ys b
      → (e : Ending Unit) (log : List Call)
      → continue (result a e) f log
        ≡ (let (e', log') = continue e (λ _. run_plan platform ys) log in (result b e', log'))
  continue-Makes f a b ys h (going t) log = h.made log
  continue-Makes f a b ys h (exited n) log = refl
  continue-Makes f a b ys h panicked log = refl

  bind-Makes :
      {A B : Type 0} (m : Main A) (f : A → Main B) (a : A) (b : B) (xs ys : List Call)
      → Makes m xs a
      → Makes (f a) ys b
      → Makes (m >>= f) (xs ++ ys) b
  bind-Makes m f a b xs ys h k = record {
    made = λ log. rw (h.made log, run_plan-append xs ys log) (continue-Makes f a b ys k _ _);
  }

  attempt-Makes : (x : Call) → failure x ≡ some (exited 1) → Makes (attempt platform x) (x ∷ []) tt
  unfolding attempt
  attempt-Makes x e = record { made = λ log. ground arith }

  set_up_controllers-Makes :
      Makes
        (set_up_controllers platform)
        (complete_controller replica_controller
          ∷ new_kube_client
          ∷ complete_controller restore_controller
          ∷ [])
        tt
  unfolding set_up_controllers attempt
  set_up_controllers-Makes = record { made = λ log. ground arith }

  init_schemes-Makes :
      Makes (init_schemes platform) (add_client_go_scheme ∷ add_database_scheme ∷ []) tt
  unfolding init_schemes must
  init_schemes-Makes = record { made = λ log. ground arith }

  watch_webhook-Makes :
      (flags : Flags)
      → Makes
          (watch_webhook_certificate platform flags)
          (each (webhook_watcher flags) (λ w. new_cert_watcher w ∷ []))
          (webhook_watcher flags)
  unfolding watch_webhook_certificate attempt
  watch_webhook-Makes flags = record { made = λ log. ground arith }

  watch_metrics-Makes :
      (flags : Flags)
      → Makes
          (watch_metrics_certificate platform flags)
          (each (metrics_watcher flags) (λ w. new_cert_watcher w ∷ []))
          (metrics_watcher flags)
  unfolding watch_metrics_certificate attempt
  watch_metrics-Makes flags = record { made = λ log. ground arith }

  set_up_webhooks-Makes :
      (flags : Flags)
      → Makes
          (set_up_webhooks platform flags)
          (each
            (webhook_watcher flags)
            (λ w. validator_setup ∷ register_injector "/mutate-core-v1-pod" ∷ []))
          tt
  unfolding set_up_webhooks attempt perform
  set_up_webhooks-Makes flags = record { made = λ log. ground arith }

  add_watcher-Makes :
      (w : Option CertWatcher)
      → Makes (add_watcher platform w) (each w (λ w. add_cert_watcher w ∷ [])) tt
  unfolding add_watcher attempt
  add_watcher-Makes none = record { made = λ log. refl }
  add_watcher-Makes (some w) = record { made = λ log. ground arith }

  start_up-Makes :
      Makes
        (start_up platform)
        (add_healthz_check "healthz" ∷ add_readyz_check "readyz" ∷ start_manager ∷ [])
        tt
  unfolding start_up attempt
  start_up-Makes = record { made = λ log. ground arith }

  result_tt : (e : Ending Unit) → result tt e ≡ e
  result_tt (going t) = refl
  result_tt (exited n) = refl
  result_tt panicked = refl

  main-Makes :
      (grow : ℕ → ℕ → ℕ) (flags : Flags) → Makes (main platform grow flags) (plan grow flags) tt
  unfolding main
  main-Makes grow flags = bind-Makes _ _ _ _ _ _ init_schemes-Makes (
      bind-Makes _ _ _ _ _ _ (watch_webhook-Makes flags) (
        bind-Makes _ _ _ _ _ _ (watch_metrics-Makes flags) (
          bind-Makes _ _ _ _ _ _ (attempt-Makes get_config refl) (
            bind-Makes _ _ _ _ _ _ (attempt-Makes (new_manager _) refl) (
              bind-Makes _ _ _ _ _ _ set_up_controllers-Makes (
                bind-Makes _ _ _ _ _ _ (set_up_webhooks-Makes flags) (
                  bind-Makes _ _ _ _ _ _ (add_watcher-Makes (metrics_watcher flags)) (
                    bind-Makes _ _ _ _ _ _ (add_watcher-Makes (webhook_watcher flags))
                      start_up-Makes))))))))

  -- The process makes the calls that its flags ask for, in order, up to the first that fails where it
  -- can: a failed scheme panics, any other failure ends the process with the exit code 1.
  pub main-run_plan :
      (grow : ℕ → ℕ → ℕ) (flags : Flags)
      → main platform grow flags [] ≡ run_plan platform (plan grow flags) []
  main-run_plan grow flags =
      (main-Makes grow flags).made []
      ∙ ap (λ e. (e, (run_plan platform (plan grow flags) []).1)) (result_tt _)
