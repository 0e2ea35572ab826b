-- ===== src/Services/Orchestrator.antt =====
-- The retries on one provider, and the failover from one provider to the next
-- (backend/services/orchestrator.go). The providers, the contexts, the clock and the notifications are a
-- record of operations; what is counted is a list of events, the newest first.
pub mod Errors
pub mod Retry
pub mod Rounds
pub mod Answers
pub mod Tries
pub mod Counts
pub mod Range
use lok_lingo.Prelude.{
  ℕ, zero, suc, ◌+◌, ◌-◌, ◌*◌, Bool, true, false, not, ◌||◌, List, [], ◌∷◌, ◌++◌, Option, none,
  some, ltb, ◌==◌, if◌then◌else◌, length, any,
}
use lok_lingo.Prelude.Int.{ℤ, pos, negsuc}
use lok_lingo.Go.Text.{Text, codes, contains, to_lower}
use lok_lingo.Go.Number.{decimal}
use lok_lingo.Go.Failure.{plain_error, GoError, Result, ok, err}
use lok_lingo.Services.Health.{
  Float64, Name, Scores, update_provider_health, ordered_providers_by_health,
  provider_health_success_target, provider_health_transient_target,
  provider_health_permanent_target,
}
use lok_lingo.Services.Orchestrator.Errors.{
  TimeoutReason, context_deadline, network_timeout, gateway_timeout, client_timeout,
  timeout_of_message, classify_timeout_reason, is_transient_status, transient_phrases,
  is_orchestrator_transient_error, wrap_last,
}
use lok_lingo.Services.Orchestrator.Retry.{
  TranslateRequest, OrchestratorConfig, default_orchestrator_config, Event, inc_provider_success,
  record_provider_latency, record_provider_retry, inc_retries_total, record_provider_timeout,
  inc_timeouts_total, inc_provider_exhausted, inc_provider_failure, inc_provider_failover,
  emit_provider_failover, Notice, retrying, retrying_on, fallback_provider, Engine, State, Try,
  rounds, count_timeout, attempt_once, retry_notice, pause, next_backoff, exhausted, try_from,
  try_provider_with_retry,
}

module _ (en : Engine) where
  open en use {World, Ctx, Provider, name, ctx_err, translate, now_ms, jitter, sleep, notify, float}

  abbrev pub to_nat : ℤ → ℕ
  to_nat (pos n) = n
  to_nat (negsuc n) = 0

  -- After a success: the score, and the failover event if it is not the first provider.
  unfoldable pub note_success : ℕ → Provider → ℤ → State en → State en
  note_success pi p retries s =
      let s1 = record s {
        scores =
            update_provider_health float (name p) (provider_health_success_target float) s.scores;
      } in
      if ltb 0 pi
      then record s1 {
        events =
            emit_provider_failover (name p) (to_nat retries)
            ∷ inc_provider_failover (name p)
            ∷ s.events;
      }
      else s1

  -- After a failure: the score and the counters.
  unfoldable pub note_failure : Provider → GoError → State en → State en
  note_failure p e s =
      let target =
        if is_orchestrator_transient_error e
        then provider_health_transient_target float
        else provider_health_permanent_target float in
      count_timeout en (name p) (classify_timeout_reason e) (record s {
        scores = update_provider_health float (name p) target s.scores;
        events = inc_provider_failure (name p) ∷ s.events;
      })

  -- The notification of a failover, if there is a next provider.
  abbrev pub announce : Ctx → List Provider → State en → State en
  announce ctx [] s = s
  announce ctx (q ∷ qs) s = record s { world = notify ctx (fallback_provider (name q)) s.world }

  -- The loop of Translate over the providers from index `pi` on.
  unfoldable pub translate_from :
      ℕ
      → List Provider
      → ℕ
      → Option GoError
      → OrchestratorConfig
      → Ctx
      → TranslateRequest
      → State en
      → Result Text × State en
  translate_from pi [] total last cfg ctx req s =
      (err (wrap_last (codes "all " ++ decimal total ++ codes " provider(s) exhausted: ") last), s)
  translate_from pi (p ∷ ps) total last cfg ctx req s = elim (ctx_err ctx s.world) [
    | some done ↦ (err done, s)
    | none ↦
        let (t, s1) = try_provider_with_retry en cfg ctx p req total s in
        elim (t.answer) [
          | ok text ↦ (ok text, note_success pi p t.retries s1)
          | err e ↦
              translate_from (pi + 1) ps total (some e) cfg ctx req
                (announce ctx ps (note_failure p e s1))
        ]
  ]

  abbrev pub no_providers : GoError
  no_providers = plain_error (codes "no translation providers configured")

  abbrev pub translate_by :
      List Provider
      → OrchestratorConfig
      → Ctx
      → TranslateRequest
      → State en
      → Result Text × State en
  translate_by [] cfg ctx req s = (err no_providers, s)
  translate_by (p ∷ ps) cfg ctx req s =
      translate_from 0 (p ∷ ps) (length (p ∷ ps)) none cfg ctx req s

  -- Translate; what it is given is registry.Ordered().
  unfoldable pub orchestrate :
      List Provider
      → OrchestratorConfig
      → Ctx
      → TranslateRequest
      → State en
      → Result Text × State en
  orchestrate registered cfg ctx req s =
      translate_by (ordered_providers_by_health float name s.scores registered) cfg ctx req s
