-- ===== src/Tests/Replicas.antt =====
-- The theorems on a LitestreamReplica, its validation and its configuration, at examples.
use sqlite_operator.Base.{◌≡◌, ◌↔◌, refl, pos, some, []}
use sqlite_operator.Base.Strings.{trim_right_slashes, decimal, quote}
use sqlite_operator.Kube.Errors.{ok, err}
use sqlite_operator.Config.{build_litestream_config_yaml}
use sqlite_operator.Webhook.Validator.{Reader, validate_litestream_replica}
use sqlite_operator.Webhook.Admission.{IsAdmissible, validate_iff}
use sqlite_operator.Tests.Objects.{orders, workload, missing}

abbrev reader : Reader
reader = record { get_deployment = λ n. ok (workload 1 1); get_stateful_set = λ n. err missing }

validate_iff_example :
    ((validate_litestream_replica (some reader) orders).1 ≡ []) ↔ IsAdmissible reader orders
validate_iff_example = validate_iff reader orders

rendered_config :
    build_litestream_config_yaml orders
    ≡ "addr: \":9090\"\ndbs:\n  - path: /data/orders.db\n    replica:\n      type: s3\n      endpoint: http://minio:9000\n      force-path-style: true\n      bucket: backups\n      path: orders\n      retention: 24h\n"
unfolding build_litestream_config_yaml trim_right_slashes
rendered_config = refl

decimal_digits : decimal (pos 130) ≡ "130"
unfolding decimal
decimal_digits = refl

quoted : quote "a\"b\n" ≡ "\"a\\\"b\\n\""
unfolding quote
quoted = refl
