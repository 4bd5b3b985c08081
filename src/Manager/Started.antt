-- ===== src/Manager/Started.antt =====
-- What has been done when the manager starts, and when the mutating webhook is registered.
use sqlite_operator.Base.{
  ℕ, ◌≡◌, ◌∙◌, sym, ap, refl, Bool, true, false, not, ◌||◌, ◌&&◌, Option, none, some, List, [], ◌∷◌,
  ◌++◌, ◌==◌, arith, Bool-cases, inl, inr,
}
use sqlite_operator.Manager.Tls.{Flags, CertWatcher, TlsConfig, apply_options, webhook_certificate}
use sqlite_operator.Manager.Calls.{
  ManagerOptions, add_client_go_scheme, add_database_scheme, new_cert_watcher, get_config,
  new_manager, register_injector, start_manager, Call, Platform, Main, Ending, going, exited,
  panicked, continue,
}
use sqlite_operator.Manager.Main.{manager_options, main}
use sqlite_operator.Manager.Plan.{
  webhook_watcher, metrics_watcher, each, registrations, manager_call, plan, failure, verdict,
  run_plan,
}
use sqlite_operator.Manager.Servers.{expected, ServesOwn-holds}
use sqlite_operator.Manager.Steps.{main-run_plan}

abbrev pub any : (Call → Bool) → List Call → Bool
any p [] = false
any p (x ∷ xs) = p x || any p xs

abbrev pub is_start : Call → Bool
is_start start_manager = true
is_start _ = false

abbrev pub is_registration : Call → Bool
is_registration (register_injector path) = true
is_registration _ = false

-- The last call, and no other, is of the kind p.
abbrev only_last : (Call → Bool) → List Call → Bool
only_last p [] = false
only_last p (x ∷ []) = p x
only_last p (x ∷ y ∷ l) = not (p x) && only_last p (y ∷ l)

-- A call was made when none of the kind p had been; the newest stands first.
abbrev pub MadeBefore : (Call → Bool) → Call → List Call → Type 0
MadeBefore p a log =
    (newer : List Call) × (older : List Call) × (log ≡ newer ++ (a ∷ older)) × (any p older ≡ false)

-- A list in reverse, before another.
abbrev pub onto : List Call → List Call → List Call
onto [] log = log
onto (x ∷ xs) log = onto xs (x ∷ log)

module _ (platform : Platform) (p : Call → Bool) where
  -- A call of the kind p that is not among those made is made by what follows.
  continue-any :
      (X : List Call → Type 0) (e : Ending Unit) (m : Main Unit) (log : List Call)
      → any p log ≡ false
      → (any p (m log).1 ≡ true → X (m log).1)
      → any p (continue e (λ _. m) log).1 ≡ true
      → X (continue e (λ _. m) log).1
  continue-any X (going t) m log n k h = k h
  continue-any X (exited c) m log n k h = cc (n, h)
  continue-any X panicked m log n k h = cc (n, h)

  run_plan-last :
      (xs log : List Call)
      → only_last p xs ≡ true
      → any p log ≡ false
      → any p (run_plan platform xs log).1 ≡ true
      → (run_plan platform xs log).1 ≡ onto xs log
  run_plan-last [] log l n h = refl
  run_plan-last (x ∷ []) log l n h = ground arith
  run_plan-last (x ∷ y ∷ xs) log l n h =
      continue-any (λ made. made ≡ onto (y ∷ xs) (x ∷ log)) (verdict (platform log x) (failure x))
        (run_plan platform (y ∷ xs)) (x ∷ log) (ground arith)
        (run_plan-last (y ∷ xs) (x ∷ log) (ground arith) (ground arith)) h

  continue-keeps :
      (a : Call) (e : Ending Unit) (m : Main Unit) (log : List Call)
      → MadeBefore p a log
      → (MadeBefore p a log → MadeBefore p a (m log).1)
      → MadeBefore p a (continue e (λ _. m) log).1
  continue-keeps a (going t) m log i k = k i
  continue-keeps a (exited n) m log i k = i
  continue-keeps a panicked m log i k = i

  run_plan-keeps :
      (a : Call) (xs log : List Call)
      → MadeBefore p a log
      → MadeBefore p a (run_plan platform xs log).1
  run_plan-keeps a [] log i = i
  run_plan-keeps a (x ∷ xs) log i =
      let (newer, older, e, n) = i in
      continue-keeps a (verdict (platform log x) (failure x)) (run_plan platform xs) (x ∷ log)
        (x ∷ newer, older, ap (λ l. x ∷ l) e, n) (run_plan-keeps a xs (x ∷ log))

  -- Calls that are not of the kind p are passed over in the search for one.
  run_plan-skip :
      (X : List Call → Type 0) (xs ys log : List Call)
      → any p xs ≡ false
      → any p log ≡ false
      → ((log' : List Call)
          → any p log' ≡ false
          → any p (run_plan platform ys log').1 ≡ true
          → X (run_plan platform ys log').1)
      → any p (run_plan platform (xs ++ ys) log).1 ≡ true
      → X (run_plan platform (xs ++ ys) log).1
  run_plan-skip X [] ys log l n k h = k log n h
  run_plan-skip X (x ∷ xs) ys log l n k h =
      continue-any X (verdict (platform log x) (failure x)) (run_plan platform (xs ++ ys)) (x ∷ log)
        (ground arith) (run_plan-skip X xs ys (x ∷ log) (ground arith) (ground arith) k) h

  -- What is made stands in the plan.
  run_plan-any :
      (xs log : List Call)
      → any p log ≡ false
      → any p (run_plan platform xs log).1 ≡ true
      → any p xs ≡ true
  run_plan-any [] log n h = cc (n, h)
  run_plan-any (x ∷ xs) log n h = elim (Bool-cases (p x)) [
    | inl e ↦ rw e refl
    | inr e ↦ rw e (
        continue-any (λ made. any p xs ≡ true) (verdict (platform log x) (failure x))
          (run_plan platform xs) (x ∷ log) (rw (e, n) refl)
          (run_plan-any xs (x ∷ log) (rw (e, n) refl)) h)
  ]

module _ (platform : Platform) (grow : ℕ → ℕ → ℕ) (flags : Flags) where
  plan-only_last : only_last is_start (plan grow flags) ≡ true
  plan-only_last = elim (Bool-cases (flags.webhook_cert_path == "")) [
    | inl w ↦ elim (Bool-cases (flags.metrics_cert_path == "")) [
      | inl m ↦ rw (w, m) refl
      | inr m ↦ rw (w, m) refl
    ]
    | inr w ↦ elim (Bool-cases (flags.metrics_cert_path == "")) [
      | inl m ↦ rw (w, m) refl
      | inr m ↦ rw (w, m) refl
    ]
  ]

  -- The manager starts only after every call that the flags ask for has been made, in order,
  -- and is the last call.
  pub main-started :
      any is_start (main platform grow flags []).1 ≡ true
      → (main platform grow flags []).1 ≡ onto (plan grow flags) []
  main-started h =
      let runs = ap (λ r. r.1) (main-run_plan platform grow flags) in
      runs
      ∙ run_plan-last platform is_start (plan grow flags) [] plan-only_last refl
          (ap (any is_start) (sym runs) ∙ h)

  no-registration :
      flags.webhook_cert_path == "" ≡ true → any is_registration (plan grow flags) ≡ false
  no-registration w = elim (Bool-cases (flags.metrics_cert_path == "")) [
    | inl m ↦ rw (w, m) refl
    | inr m ↦ rw (w, m) refl
  ]

  watcher_given :
      flags.webhook_cert_path == "" ≡ false
      → webhook_watcher flags ≡ some (webhook_certificate flags)
  watcher_given w = rw w refl

  watch-registration :
      (w : Option CertWatcher) → any is_registration (each w (λ w. new_cert_watcher w ∷ [])) ≡ false
  watch-registration none = refl
  watch-registration (some w) = refl

  registered-manager :
      any is_registration (run_plan platform (plan grow flags) []).1 ≡ true
      → MadeBefore is_registration
          (manager_call grow flags)
          (run_plan platform (plan grow flags) []).1
  registered-manager h =
      let made = manager_call grow flags in
      let skip = run_plan-skip platform is_registration (MadeBefore is_registration made) in
      let later = registrations flags in
      let webhook = each (webhook_watcher flags) (λ w. new_cert_watcher w ∷ []) in
      let metrics = each (metrics_watcher flags) (λ w. new_cert_watcher w ∷ []) in
      skip (add_client_go_scheme ∷ add_database_scheme ∷ [])
        (webhook ++ (metrics ++ get_config ∷ made ∷ later)) [] refl refl
        (λ log n.
          skip webhook (metrics ++ get_config ∷ made ∷ later) log
            (watch-registration (webhook_watcher flags)) n
            (λ log n.
              skip metrics (get_config ∷ made ∷ later) log
                (watch-registration (metrics_watcher flags)) n
                (λ log n. skip (get_config ∷ []) (made ∷ later) log refl n (λ log none_yet h.
                  continue-keeps platform is_registration made
                    (verdict (platform log made) (some (exited 1))) (run_plan platform later)
                    (made ∷ log) ([], log, refl, none_yet)
                    (run_plan-keeps platform is_registration made later (made ∷ log))))))
        h

  -- Where the injector is registered, the manager was made when no registration had been, with a
  -- webhook server that serves the certificate of the flags, and HTTP/2 only where they enable it; the
  -- first `append` to a nil slice is taken to leave no room.
  pub injector-served :
      grow 0 1 ≡ 1
      → any is_registration (main platform grow flags []).1 ≡ true
      → (o : ManagerOptions) × MadeBefore is_registration
          (new_manager o)
          (main platform grow flags []).1
        × ((c : TlsConfig)
            → apply_options o.webhook_opts c
              ≡ expected flags.enable_http2 (some (webhook_certificate flags)) c)
  unfolding manager_options
  injector-served g h =
      let runs = ap (λ r. r.1) (main-run_plan platform grow flags) in
      let made = ap (any is_registration) (sym runs) ∙ h in
      let planned = run_plan-any platform is_registration (plan grow flags) [] refl made in
      elim (Bool-cases (flags.webhook_cert_path == "")) [
        | inl w ↦ cc (planned, no-registration w)
        | inr w ↦ (
          manager_options grow flags (webhook_watcher flags) (metrics_watcher flags),
          rw runs (registered-manager made),
          λ c.
              (ServesOwn-holds grow flags (webhook_watcher flags) (metrics_watcher flags) g c).0
              ∙ ap (λ x. expected flags.enable_http2 x c) (watcher_given w),
        )
      ]
