-- ===== src/Kube/Errors.antt =====
-- Errors of the API, wrapped by `fmt.Errorf("…: %w", err)` or not, and results.
use sqlite_operator.Base.{String, ◌<>◌, ◌≡◌, refl, ◌⊎◌, inl, inr, Bool, true, false}

pub data Reason : Type 0 where
  not_found already_exists other_reason : Reason

pub data Err : Type 0 where
  -- an error of the API server or the client, with its message
  api_error : Reason → String → Err
  -- `fmt.Errorf("prefix: %w", err)`
  wrapped : String → Err → Err
  -- `fmt.Errorf` with no error inside
  plain : String → Err

pub data Result {ℓ} (A : Type ℓ) : Type ℓ where
  ok : A → Result A
  err : Err → Result A

-- `%v` of an error
unfoldable pub error_text : Err → String
error_text (api_error r m) = m
error_text (wrapped prefix e) = prefix <> ": " <> error_text e
error_text (plain m) = m

-- `errors.IsNotFound`, which looks through wrapping
unfoldable pub is_not_found : Err → Bool
is_not_found (api_error not_found m) = true
is_not_found (api_error _ m) = false
is_not_found (wrapped _ e) = is_not_found e
is_not_found (plain _) = false

-- `errors.IsAlreadyExists`
unfoldable pub is_already_exists : Err → Bool
is_already_exists (api_error already_exists m) = true
is_already_exists (api_error _ m) = false
is_already_exists (wrapped _ e) = is_already_exists e
is_already_exists (plain _) = false

-- To split on a result and keep the equation.
pub Result-cases {ℓ} :
    {A : Type ℓ} (r : Result A) → ((a : A) × (r ≡ ok a)) ⊎ ((e : Err) × (r ≡ err e))
Result-cases (ok a) = inl (a, refl)
Result-cases (err e) = inr (e, refl)
