-- ===== src/Jobs/Translate/Retry.antt =====
-- A call of the translation service for one text, with its retries (translateWithRetry and the timeout
-- round it in backend/jobs/worker.go). What the code reaches outside itself is the record Runtime.
use lok_lingo.Prelude.{ℕ, zero, suc, ◌+◌, ◌*◌, Bool, true, false, ◌||◌, not, Option, none, some}
use lok_lingo.Go.Text.{Text, codes, contains}
use lok_lingo.Go.Failure.{GoError, Result, ok, err}

abbrev pub translate_max_retries : ℕ
translate_max_retries = 3

-- in milliseconds
abbrev pub translate_retry_base : ℕ
translate_retry_base = 500

-- in milliseconds
abbrev pub translate_chunk_timeout : ℕ
translate_chunk_timeout = 25000

unfoldable pub is_rate_limit_error : GoError → Bool
is_rate_limit_error e =
    contains e.message (codes "litellm status 429")
    || contains e.message (codes "rate limit")
    || contains e.message (codes "rate_limit")

unfoldable pub is_transient_network_error : GoError → Bool
is_transient_network_error e =
    e.net_timeout
    || contains e.message (codes "context deadline exceeded")
    || contains e.message (codes "Client.Timeout exceeded")
    || contains e.message (codes "net/http: request canceled")
    || contains e.message (codes "connection timed out")
    || contains e.message (codes "connection reset by peer")
    || contains e.message (codes "connection refused")
    || contains e.message (codes "i/o timeout")
    || contains e.message (codes "timed out")
    || contains e.message (codes "timeout")

abbrev pub is_retryable : GoError → Bool
is_retryable e = is_rate_limit_error e || is_transient_network_error e

pub record RetryMetrics : Type 0 where
  pub translate_retry_count : ℕ
  pub timeout_retry_count : ℕ
  pub split_count : ℕ

unfoldable pub inc_translate_retry : RetryMetrics → RetryMetrics
inc_translate_retry m = record m { translate_retry_count = m.translate_retry_count + 1 }

unfoldable pub inc_timeout_retry : RetryMetrics → RetryMetrics
inc_timeout_retry m = record m { timeout_retry_count = m.timeout_retry_count + 1 }

unfoldable pub inc_split : RetryMetrics → RetryMetrics
inc_split m = record m { split_count = m.split_count + 1 }

unfoldable pub total_retry_events : RetryMetrics → ℕ
total_retry_events m = m.translate_retry_count + m.timeout_retry_count + m.split_count

-- The outside of a worker: every operation takes the world and returns the world that it leaves.
pub record Runtime : Type 1 where
  pub World : Type 0
  pub Ctx : Type 0
  -- ctx.Err()
  pub ctx_err : Ctx → World → Option GoError
  -- context.WithTimeout, in milliseconds, and the call of its cancel function
  pub with_timeout : Ctx → ℕ → World → Ctx × World
  pub cancel : Ctx → World → World
  -- a slot of the LLM semaphore, or the error of a context that is done first
  pub acquire : Ctx → World → Option GoError × World
  pub release : World → World
  -- a pause of so many milliseconds, or the error of a context that is done first
  pub sleep : Ctx → ℕ → World → Option GoError × World
  -- the "chunk_retry" event with its retry count
  pub emit_chunk_retry : Ctx → ℕ → World → World
  -- TranslationService.Translate of a text from a source to a target language
  pub translate : Ctx → Text → Text → Text → World → Result Text × World

-- What a call threads through: the outside, and the counters that *retryMetrics points to.
pub record State (rt : Runtime) : Type 0 where
  pub world : rt.World
  pub metrics : RetryMetrics

module _ (rt : Runtime) where
  open rt use {
    World, Ctx, ctx_err, with_timeout, cancel, acquire, release, sleep, emit_chunk_retry, translate,
  }

  abbrev pub is_done : Ctx → World → Bool
  is_done ctx w = elim (ctx_err ctx w) [ none ↦ false | some e ↦ true ]

  abbrev pub moved : World → State rt → State rt
  moved w s = record s { world = w }

  -- One call of the service.
  abbrev pub call : Ctx → Text → Text → Text → State rt → Result Text × State rt
  call ctx text source target s =
      let (r, w) = translate ctx text source target s.world in (r, moved w s)

  -- What a failed attempt with retries left does before the next: counts, reports and sleeps.
  abbrev pub back_off : Ctx → ℕ → ℕ → State rt → Option GoError × State rt
  back_off ctx attempt delay s =
      let (woken, w) = sleep ctx delay (emit_chunk_retry ctx (attempt + 1) s.world) in
      (woken, record { world = w; metrics = inc_translate_retry s.metrics })

  -- The loop of translateWithRetry. It counts the retries left, translateMaxRetries - attempt, so the
  -- test `attempt >= translateMaxRetries` is the first clause.
  unfoldable pub retry_from :
      ℕ → ℕ → ℕ → Ctx → Text → Text → Text → State rt → Result Text × State rt
  retry_from zero attempt delay ctx text source target s = call ctx text source target s
  retry_from (suc left) attempt delay ctx text source target s =
      let (r, s1) = call ctx text source target s in
      elim r [
        | ok t ↦ (ok t, s1)
        | err e ↦ elim (not (is_retryable e) || is_done ctx s1.world) [
          | true ↦ (err e, s1)
          | false ↦
              let (woken, s2) = back_off ctx attempt delay s1 in
              elim woken [
                | some done ↦ (err done, s2)
                | none ↦ retry_from left (attempt + 1) (delay * 2) ctx text source target s2
              ]
        ]
      ]

  -- A slot is taken for the whole call and given back at its end.
  unfoldable pub translate_with_retry : Ctx → Text → Text → Text → State rt → Result Text × State rt
  translate_with_retry ctx text source target s =
      let (refused, w) = acquire ctx s.world in
      elim refused [
        | some e ↦ (err e, moved w s)
        | none ↦
            let (r, s') =
              retry_from translate_max_retries 0 translate_retry_base ctx text source target
                (moved w s) in
            (r, moved (release s'.world) s')
      ]

  -- The timeout is a positive constant, so the branch without one is not taken.
  unfoldable pub translate_with_chunk_timeout :
      Ctx → Text → Text → Text → State rt → Result Text × State rt
  translate_with_chunk_timeout ctx text source target s =
      let (chunk_ctx, w) = with_timeout ctx translate_chunk_timeout s.world in
      let (r, s') = translate_with_retry chunk_ctx text source target (moved w s) in
      (r, moved (cancel chunk_ctx s'.world) s')
