-- ===== src/Services/Orchestrator/Errors.antt =====
-- The errors of a provider that are worth another attempt, and those that are timeouts
-- (backend/services/orchestrator.go).
use lok_lingo.Prelude.{
  ℕ, Bool, ◌||◌, List, [], ◌∷◌, ◌++◌, Option, none, some, ◌==◌, if◌then◌else◌, any,
}
use lok_lingo.Go.Text.{Text, codes, contains, to_lower}
use lok_lingo.Go.Failure.{plain_error, GoError}

pub data TimeoutReason : Type 0 where
  context_deadline network_timeout gateway_timeout client_timeout : TimeoutReason

abbrev pub timeout_of_message : Text → Option TimeoutReason
timeout_of_message msg =
    if contains msg (codes "gateway timeout") || contains msg (codes "status 504")
    then some gateway_timeout
    else if contains msg (codes "client.timeout exceeded")
        || contains msg (codes "i/o timeout")
        || contains msg (codes "timed out")
    then some client_timeout
    else if contains msg (codes "context deadline exceeded")
    then some context_deadline
    else none

unfoldable pub classify_timeout_reason : GoError → Option TimeoutReason
classify_timeout_reason e =
    if e.deadline
    then some context_deadline
    else if e.net_timeout
    then some network_timeout
    else timeout_of_message (to_lower e.message)

-- ProviderError.IsTransient
abbrev pub is_transient_status : ℕ → Bool
is_transient_status status = status == 429 || status == 502 || status == 503 || status == 504

unfoldable pub transient_phrases : List Text
transient_phrases =
    codes "context deadline exceeded"
    ∷ codes "client.timeout exceeded"
    ∷ codes "connection reset"
    ∷ codes "connection refused"
    ∷ codes "i/o timeout"
    ∷ codes "timed out"
    ∷ codes "timeout"
    ∷ codes "rate limit"
    ∷ codes "rate_limit"
    ∷ codes "temporarily unavailable"
    ∷ codes "service unavailable"
    ∷ codes "bad gateway"
    ∷ codes "gateway timeout"
    ∷ []

unfoldable pub is_orchestrator_transient_error : GoError → Bool
is_orchestrator_transient_error e = elim (e.status) [
  | some status ↦ is_transient_status status
  | none ↦ e.net_timeout || any (contains (to_lower e.message)) transient_phrases
]

-- fmt.Errorf("<prefix>%w", err); a missing error prints as it does in Go.
abbrev pub wrap_last : Text → Option GoError → GoError
wrap_last prefix (some e) = record e { message = prefix ++ e.message }
wrap_last prefix none = plain_error (prefix ++ codes "%!w(<nil>)")
