-- ===== src/Go/Failure.antt =====
-- Go error values, as the program examines them: errors.Is, errors.As and err.Error().
use lok_lingo.Prelude.{ℕ, ◌≡◌, refl, ◌⊎◌, inl, inr, Bool, false, Option, none}
use lok_lingo.Go.Text.{Text}

pub record GoError : Type 0 where
  pub message : Text  -- err.Error()
  pub deadline : Bool  -- errors.Is(err, context.DeadlineExceeded)
  pub canceled : Bool  -- errors.Is(err, context.Canceled)
  pub net_timeout : Bool  -- errors.As(err, &netErr) && netErr.Timeout()
  pub status : Option ℕ  -- the StatusCode of errors.As(err, &pe) for *ProviderError

-- errors.New and fmt.Errorf without %w
abbrev pub plain_error : Text → GoError
plain_error message = record {
  message = message;
  deadline = false;
  canceled = false;
  net_timeout = false;
  status = none;
}

pub data Result {ℓ} (A : Type ℓ) : Type ℓ where
  ok : A → Result A
  err : GoError → Result A

pub Result-cases {ℓ} :
    {A : Type ℓ} (r : Result A) → ((a : A) × (r ≡ ok a)) ⊎ ((e : GoError) × (r ≡ err e))
Result-cases (ok a) = inl (a, refl)
Result-cases (err e) = inr (e, refl)
