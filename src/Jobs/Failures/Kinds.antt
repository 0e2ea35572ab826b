-- ===== src/Jobs/Failures/Kinds.antt =====
-- The kind of the error that a job failed with, and the delay before its next attempt (classifyJobError and
-- retryDelayForAttempt in backend/jobs/worker.go).
use lok_lingo.Prelude.{
  ℕ, zero, suc, ◌+◌, ◌-◌, ◌*◌, Bool, true, false, ◌&&◌, ◌||◌, not, leb, ltb, if◌then◌else◌,
}
use lok_lingo.Go.Text.{Text, codes, is_empty, to_lower, contains}
use lok_lingo.Jobs.Job.{second, max_retry_delay}

unfoldable pub is_retryable_job_error : Text → Bool
is_retryable_job_error msg =
    let lower = to_lower msg in
    not (is_empty msg)
    && (contains lower (codes "litellm status 429")
        || contains lower (codes "rate limit")
        || contains lower (codes "timeout")
        || contains lower (codes "timed out")
        || contains lower (codes "connection reset")
        || contains lower (codes "connection refused")
        || contains lower (codes "service unavailable")
        || contains lower (codes "temporarily unavailable"))

unfoldable pub is_permanent_job_error : Text → Bool
is_permanent_job_error msg =
    let lower = to_lower msg in
    not (is_empty msg)
    && (contains lower (codes "invalid api key")
        || contains lower (codes "authentication failed")
        || contains lower (codes "unauthorized")
        || contains lower (codes "forbidden")
        || contains lower (codes "unsupported language")
        || contains lower (codes "invalid request")
        || contains lower (codes "malformed"))

pub data ErrorKind : Type 0 where
  permanent transient unknown : ErrorKind

unfoldable pub classify_job_error : Text → ErrorKind × Bool
classify_job_error msg =
    if is_permanent_job_error msg
    then (permanent, false)
    else if is_retryable_job_error msg
    then (transient, true)
    else (unknown, false)

-- for i := 1; i < attempt && delay < maxRetryDelay; i++: the rounds that are left
unfoldable pub double_delay : ℕ → ℕ → ℕ
double_delay zero delay = delay
double_delay (suc rounds) delay =
    let next = double_delay rounds (delay * 2) in if ltb delay max_retry_delay then next else delay

-- `jitter d` is the random part, the product of d, 0.25 and a random number from [0, 1).
unfoldable pub retry_delay_for_attempt : (ℕ → ℕ) → ℕ → ℕ
retry_delay_for_attempt jitter attempt =
    if leb attempt 1
    then 2 * second + jitter (2 * second)
    else let doubled = double_delay (attempt - 1) (2 * second) in
      let delay : ℕ = if ltb max_retry_delay doubled then max_retry_delay else doubled in
      delay + jitter delay
