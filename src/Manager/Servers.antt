-- ===== src/Manager/Servers.antt =====
-- Which certificate each of the two servers serves, and with which protocols.
use sqlite_operator.Base.{
  ℕ, ◌<◌, ◌≡◌, ◌↔◌, ◌≢◌, ◌∙◌, sym, refl, ap, Bool, false, Option, none, some, [], ◌∷◌,
  if◌then◌else◌, arith, eqb, Bool-cases, inl, inr,
}
use sqlite_operator.Manager.Slices.{append}
use sqlite_operator.Manager.Tls.{
  default_flags, Flags, CertWatcher, TlsConfig, apply_options, initial_opts, with_certificate,
  tls_options, webhook_tls_opts, metrics_tls_opts,
}

-- The configuration that a server should have: HTTP/2 is left out unless it is enabled, and the
-- certificate is the server's own.
abbrev pub expected : Bool → Option CertWatcher → TlsConfig → TlsConfig
expected http2 none c = record c { next_protos = if http2 then c.next_protos else "http/1.1" ∷ [] }
expected http2 (some w) c = record c {
  next_protos = if http2 then c.next_protos else "http/1.1" ∷ [];
  get_certificate = some w;
}

abbrev pub ServesOwn : (ℕ → ℕ → ℕ) → Flags → Option CertWatcher → Option CertWatcher → Type 0
ServesOwn grow flags webhook metrics =
    (c : TlsConfig)
    → (apply_options (webhook_tls_opts grow flags webhook metrics) c
        ≡ expected flags.enable_http2 webhook c)
      × (apply_options (metrics_tls_opts grow flags webhook metrics) c
          ≡ expected flags.enable_http2 metrics c)

abbrev own : CertWatcher
own = record { cert_file = "own.crt"; key_file = "own.key" }

abbrev other : CertWatcher
other = record { cert_file = "other.crt"; key_file = "other.key" }

abbrev plain_config : TlsConfig
plain_config = record { next_protos = []; get_certificate = none }

other-ne-own : some other ≢ some own
other-ne-own e = cc e

module _ (grow : ℕ → ℕ → ℕ) where
  pub ServesOwn-holds :
      (flags : Flags) (webhook metrics : Option CertWatcher)
      → grow 0 1 ≡ 1
      → ServesOwn grow flags webhook metrics
  unfolding webhook_tls_opts metrics_tls_opts tls_options initial_opts with_certificate append
  ServesOwn-holds flags none none g c = ground arith
  ServesOwn-holds flags none (some m) g c = ground arith
  ServesOwn-holds flags (some w) none g c = ground arith
  ServesOwn-holds flags (some w) (some m) g c = ground arith

  -- An array with room left is shared, and the metrics server's option overwrites the webhook's.
  webhook_certificate-shared :
      (flags : Flags) (w m : CertWatcher) (c : TlsConfig)
      → 1 < grow 0 1
      → flags.enable_http2 ≡ false
      → (apply_options (webhook_tls_opts grow flags (some w) (some m)) c).get_certificate ≡ some m
  unfolding webhook_tls_opts metrics_tls_opts tls_options initial_opts with_certificate append
  webhook_certificate-shared flags w m c g h = ground arith

  shared-one :
      0 < grow 0 1
      → ((flags : Flags) (webhook metrics : Option CertWatcher)
          → ServesOwn grow flags webhook metrics)
      → grow 0 1 ≡ 1
  shared-one g h = elim (Bool-cases (eqb (grow 0 1) 1)) [
    | inl e ↦ ground arith
    | inr e ↦
        let shared =
          webhook_certificate-shared default_flags own other plain_config (ground arith) refl in
        let fits = (h default_flags (some own) (some other) plain_config).0 in
        absurd (other-ne-own (sym shared ∙ ap (λ c. c.get_certificate) fits))
  ]

  -- Each server has its own certificate, and HTTP/2 only where it is enabled, whatever the flags, if
  -- and only if the first `append` to a nil slice takes an array with no room for a second option; the
  -- runtime is taken to return an array that has room for what is appended.
  pub servers_serve_own_iff :
      0 < grow 0 1
      → (grow 0 1 ≡ 1) ↔ (
          (flags : Flags) (webhook metrics : Option CertWatcher)
          → ServesOwn grow flags webhook metrics)
  servers_serve_own_iff g =
      (λ e. λ flags. λ w. λ m. ServesOwn-holds flags w m e, λ h. shared-one g h)
