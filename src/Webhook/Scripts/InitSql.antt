-- ===== src/Webhook/Scripts/InitSql.antt =====
-- What the script that applies init.sql does, over the markers that it leaves on the volume.
use sqlite_operator.Base.{
  eqb, ◌≢◌, ℕ, String, ◌≡◌, ◌∙◌, ap, refl, Bool, true, false, ◌&&◌, ◌||◌, List, [], ◌∷◌, ◌+◌, ◌==◌,
  if◌then◌else◌, arith, eq_iff, Bool-cases, inl, inr,
}

-- The hashes whose marker file stands there, and the runs of sqlite3: the hash of the SQL and the exit
-- code, newest first.
pub record InitVolume : Type 0 where
  pub markers : List String
  pub runs : List (String × ℕ)

-- The exit code of sqlite3, and whether `touch` makes the marker.
pub record InitAnswer : Type 0 where
  pub sqlite_exit : ℕ
  pub touched : Bool

abbrev pub contains : String → List String → Bool
contains h [] = false
contains h (m ∷ ms) = m == h || contains h ms

-- The script: its exit code is that of its last command, an `echo` in both branches.
unfoldable pub run_init_sql : String → InitAnswer → InitVolume → ℕ × InitVolume
run_init_sql hash answer v = if contains hash v.markers then (0, v) else (
  0,
  record {
    markers = if answer.touched then hash ∷ v.markers else v.markers;
    runs = (hash, answer.sqlite_exit) ∷ v.runs;
  },
)

-- The starts of a pod, oldest first, each with the hash of its init.sql.
abbrev pub start_pods : List (String × InitAnswer) → InitVolume → InitVolume
start_pods [] v = v
start_pods ((hash, answer) ∷ starts) v = start_pods starts (run_init_sql hash answer v).1

abbrev pub starts_with : String → List (String × InitAnswer) → Bool
starts_with h [] = false
starts_with h ((hash, answer) ∷ starts) = hash == h || starts_with h starts

abbrev pub all_touched : List (String × InitAnswer) → Bool
all_touched [] = true
all_touched ((hash, answer) ∷ starts) = answer.touched && all_touched starts

-- How often SQL with a hash was run.
abbrev pub runs_of : String → List (String × ℕ) → ℕ
runs_of h [] = 0
runs_of h ((hash, exit) ∷ runs) = (if hash == h then 1 else 0) + runs_of h runs

abbrev pub fresh_volume : InitVolume
fresh_volume = record { markers = []; runs = [] }

abbrev one_if : Bool → ℕ
one_if true = 1
one_if false = 0

run_init_sql-runs_of :
    (h hash : String) (answer : InitAnswer) (v : InitVolume)
    → answer.touched ≡ true
    → runs_of h v.runs ≡ one_if (contains h v.markers)
    → (let v' = (run_init_sql hash answer v).1 in
        (runs_of h v'.runs ≡ one_if (contains h v'.markers))
        × (contains h v'.markers ≡ (contains h v.markers || hash == h)))
unfolding run_init_sql
run_init_sql-runs_of h hash answer v t i = elim (Bool-cases (hash == h)) [
  | inl e ↦ ground (arith, ap (λ k. contains k v.markers) ((eq_iff hash h).0 e))
  | inr e ↦ ground (arith, eq_iff hash h)
]

start_pods-runs_of :
    (h : String) (starts : List (String × InitAnswer)) (v : InitVolume)
    → all_touched starts ≡ true
    → runs_of h v.runs ≡ one_if (contains h v.markers)
    → runs_of h (start_pods starts v).runs ≡ one_if (contains h v.markers || starts_with h starts)
start_pods-runs_of h [] v t i = ground (arith, i)
start_pods-runs_of h ((hash, answer) ∷ starts) v t i =
    let (j, k) = run_init_sql-runs_of h hash answer v (ground arith) i in
    let rest = start_pods-runs_of h starts (run_init_sql hash answer v).1 (ground arith) j in
    ground (arith, rest, k)

-- However often pods start on a fresh volume, with whatever init.sql, the SQL of a hash is run exactly
-- once if a start asked for it, and else not at all, where `touch` does not fail. SQL that is changed
-- and changed back is thus not run again.
pub start_pods-once :
    (h : String) (starts : List (String × InitAnswer))
    → all_touched starts ≡ true
    → runs_of h (start_pods starts fresh_volume).runs ≡ one_if (starts_with h starts)
start_pods-once h starts t = start_pods-runs_of h starts fresh_volume t refl

-- Whether a run of the SQL with a hash ended with the exit code 0.
abbrev pub succeeded : String → List (String × ℕ) → Bool
succeeded h [] = false
succeeded h ((hash, exit) ∷ runs) = (hash == h && eqb exit 0) || succeeded h runs

run_init_sql-succeeded :
    (h hash : String) (answer : InitAnswer) (v : InitVolume)
    → contains h v.markers ≡ true
    → (let v' = (run_init_sql hash answer v).1 in
        (contains h v'.markers ≡ true) × (succeeded h v'.runs ≡ succeeded h v.runs))
unfolding run_init_sql
run_init_sql-succeeded h hash answer v c = elim (Bool-cases (hash == h)) [
  | inl e ↦ ground (arith, ap (λ k. contains k v.markers) ((eq_iff hash h).0 e))
  | inr e ↦ ground (arith, eq_iff hash h)
]

start_pods-succeeded :
    (h : String) (starts : List (String × InitAnswer)) (v : InitVolume)
    → contains h v.markers ≡ true
    → succeeded h (start_pods starts v).runs ≡ succeeded h v.runs
start_pods-succeeded h [] v c = refl
start_pods-succeeded h ((hash, answer) ∷ starts) v c =
    let (c', s) = run_init_sql-succeeded h hash answer v c in
    start_pods-succeeded h starts (run_init_sql hash answer v).1 c' ∙ s

-- SQL that fails at its first run never succeeds afterwards, however often pods start: its marker is
-- made all the same, and the script ends with the exit code 0.
pub start_pods-failed :
    (h : String) (answer : InitAnswer) (starts : List (String × InitAnswer))
    → answer.sqlite_exit ≢ 0
    → answer.touched ≡ true
    → ((run_init_sql h answer fresh_volume).0 ≡ 0)
      × (succeeded h (start_pods ((h, answer) ∷ starts) fresh_volume).runs ≡ false)
unfolding run_init_sql
start_pods-failed h answer starts f t =
    let v = (run_init_sql h answer fresh_volume).1 in
    let marked : contains h v.markers ≡ true = ground (arith, eq_iff h h) in
    let failed : succeeded h v.runs ≡ false = ground (arith, f) in
    (refl, start_pods-succeeded h starts v marked ∙ failed)
