-- ===== src/Manager/Tls.antt =====
-- The TLS options of the webhook server and of the metrics server.
use sqlite_operator.Base.{
  ℕ, String, Bool, true, false, Option, none, some, List, [], ◌∷◌, if◌then◌else◌,
}
use sqlite_operator.Base.FilePath.{join_path}
use sqlite_operator.Manager.Slices.{Heap, Slice, no_arrays, nil, read, append}

-- The command line flags, once they are parsed.
pub record Flags : Type 0 where
  pub metrics_addr : String
  pub metrics_cert_path : String
  pub metrics_cert_name : String
  pub metrics_cert_key : String
  pub webhook_cert_path : String
  pub webhook_cert_name : String
  pub webhook_cert_key : String
  pub enable_leader_election : Bool
  pub probe_addr : String
  pub secure_metrics : Bool
  pub enable_http2 : Bool

-- Where no flag is given.
abbrev pub default_flags : Flags
default_flags = record {
  metrics_addr = "0";
  metrics_cert_path = "";
  metrics_cert_name = "tls.crt";
  metrics_cert_key = "tls.key";
  webhook_cert_path = "";
  webhook_cert_name = "tls.crt";
  webhook_cert_key = "tls.key";
  enable_leader_election = false;
  probe_addr = ":8081";
  secure_metrics = true;
  enable_http2 = false;
}

-- A watcher of certificate files, which serves what they hold.
pub record CertWatcher : Type 0 where
  pub cert_file : String
  pub key_file : String

unfoldable pub webhook_certificate : Flags → CertWatcher
webhook_certificate flags = record {
  cert_file = join_path flags.webhook_cert_path flags.webhook_cert_name;
  key_file = join_path flags.webhook_cert_path flags.webhook_cert_key;
}

unfoldable pub metrics_certificate : Flags → CertWatcher
metrics_certificate flags = record {
  cert_file = join_path flags.metrics_cert_path flags.metrics_cert_name;
  key_file = join_path flags.metrics_cert_path flags.metrics_cert_key;
}

-- What the options change of a `tls.Config`.
pub record TlsConfig : Type 0 where
  pub next_protos : List String
  pub get_certificate : Option CertWatcher

-- The functions that the program appends to lists of options.
pub data TlsOption : Type 0 where
  disable_http2 : TlsOption
  serve_certificate : CertWatcher → TlsOption

abbrev pub apply_option : TlsOption → TlsConfig → TlsConfig
apply_option disable_http2 c = record c { next_protos = "http/1.1" ∷ [] }
apply_option (serve_certificate w) c = record c { get_certificate = some w }

-- A server applies its options in their order.
abbrev pub apply_options : List TlsOption → TlsConfig → TlsConfig
apply_options [] c = c
apply_options (o ∷ os) c = apply_options os (apply_option o c)

-- The slices of options that the two servers are given, and the arrays behind them.
pub record TlsOptions : Type 0 where
  pub heap : Heap TlsOption
  pub webhook_opts : Slice
  pub metrics_opts : Slice

module _ (grow : ℕ → ℕ → ℕ) where
  -- `tlsOpts`
  unfoldable pub initial_opts : Flags → Heap TlsOption × Slice
  initial_opts flags =
      if flags.enable_http2 then (no_arrays, nil) else append grow no_arrays nil disable_http2

  unfoldable pub with_certificate :
      Option CertWatcher → Heap TlsOption → Slice → Heap TlsOption × Slice
  with_certificate none h s = (h, s)
  with_certificate (some w) h s = append grow h s (serve_certificate w)

  -- Both servers' options start as `tlsOpts`; the webhook's are extended first.
  unfoldable pub tls_options : Flags → Option CertWatcher → Option CertWatcher → TlsOptions
  tls_options flags webhook metrics =
      let (h, s) = initial_opts flags in
      let (h', w) = with_certificate webhook h s in
      let (h'', m) = with_certificate metrics h' s in
      record { heap = h''; webhook_opts = w; metrics_opts = m }

  unfoldable pub webhook_tls_opts : Flags → Option CertWatcher → Option CertWatcher → List TlsOption
  webhook_tls_opts flags webhook metrics =
      let o = tls_options flags webhook metrics in read o.heap o.webhook_opts

  unfoldable pub metrics_tls_opts : Flags → Option CertWatcher → Option CertWatcher → List TlsOption
  metrics_tls_opts flags webhook metrics =
      let o = tls_options flags webhook metrics in read o.heap o.metrics_opts
