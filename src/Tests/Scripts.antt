-- ===== src/Tests/Scripts.antt =====
-- Pods that start with an init.sql.
use sqlite_operator.Base.{◌≡◌, refl, false, true, [], ◌∷◌, arith}
use sqlite_operator.Webhook.Scripts.InitSql.{
  InitAnswer, runs_of, start_pods, fresh_volume, succeeded, run_init_sql, start_pods-once,
  start_pods-failed,
}

abbrev applied : InitAnswer
applied = record { sqlite_exit = 0; touched = true }

abbrev refused : InitAnswer
refused = record { sqlite_exit = 1; touched = true }

start_pods-once_example :
    runs_of "a1"
      (start_pods (("a1", applied) ∷ ("b2", refused) ∷ ("a1", applied) ∷ []) fresh_volume).runs
    ≡ 1
start_pods-once_example =
    start_pods-once "a1" (("a1", applied) ∷ ("b2", refused) ∷ ("a1", applied) ∷ []) refl

start_pods-failed_example :
    ((run_init_sql "a1" refused fresh_volume).0 ≡ 0)
    × (succeeded "a1" (start_pods (("a1", refused) ∷ ("a1", applied) ∷ []) fresh_volume).runs
        ≡ false)
start_pods-failed_example = start_pods-failed "a1" refused (("a1", applied) ∷ []) (omega arith) refl
