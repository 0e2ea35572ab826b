-- ===== src/Services/Orchestrator/Retry.antt =====
-- The attempts on one provider (tryProviderWithRetry in backend/services/orchestrator.go).
use lok_lingo.Prelude.{
  ℕ, zero, suc, ◌+◌, ◌-◌, ◌*◌, true, false, List, ◌∷◌, ◌++◌, Option, none, some, ltb, if◌then◌else◌,
}
use lok_lingo.Prelude.Int.{ℤ, pos, negsuc}
use lok_lingo.Go.Text.{Text, codes}
use lok_lingo.Go.Failure.{GoError, Result, ok, err}
use lok_lingo.Services.Health.{Float64, Name, Scores}
use lok_lingo.Services.Orchestrator.Errors.{
  TimeoutReason, classify_timeout_reason, is_orchestrator_transient_error, wrap_last,
}

pub record TranslateRequest : Type 0 where
  pub text : Text
  pub source : Text
  pub target : Text

-- Durations are in nanoseconds.
pub record OrchestratorConfig : Type 0 where
  pub max_retries_per_provider : ℤ
  pub initial_backoff : ℕ
  pub max_backoff : ℕ

abbrev pub default_orchestrator_config : OrchestratorConfig
default_orchestrator_config = record {
  max_retries_per_provider = pos 3;
  initial_backoff = 200_000_000;
  max_backoff = 2_000_000_000;
}

-- The calls of internal/observability.
pub data Event : Type 0 where
  inc_provider_success : Name → Event
  record_provider_latency : Name → ℕ → Event
  record_provider_retry : Name → Event
  inc_retries_total : Event
  record_provider_timeout : Name → TimeoutReason → Event
  inc_timeouts_total : Event
  inc_provider_exhausted : Name → Event
  inc_provider_failure : Name → Event
  inc_provider_failover : Name → Event
  emit_provider_failover : Name → ℕ → Event

-- The stage notifications. Of a message the parts that vary.
pub data Notice : Type 0 where
  retrying : Notice
  retrying_on : Name → ℕ → Notice
  fallback_provider : Name → Notice

pub record Engine : Type 1 where
  pub World : Type 0
  pub Ctx : Type 0
  pub Provider : Type 0
  pub name : Provider → Name
  -- ctx.Err()
  pub ctx_err : Ctx → World → Option GoError
  -- one attempt of a provider
  pub translate : Provider → Ctx → TranslateRequest → World → Result Text × World
  -- the clock, in milliseconds
  pub now_ms : World → ℕ
  -- the random part of a pause: 0 if JitterFraction is not positive
  pub jitter : ℕ → World → ℕ × World
  -- a pause, or the error of a context that is done first
  pub sleep : Ctx → ℕ → World → Option GoError × World
  pub notify : Ctx → Notice → World → World
  pub float : Float64

pub record State (en : Engine) : Type 0 where
  pub world : en.World
  pub scores : Scores en.float
  pub events : List Event  -- the newest first

-- The answer of tryProviderWithRetry: with the number of retries it returns.
pub record Try : Type 0 where
  pub answer : Result Text
  pub retries : ℤ

-- for attempt := 0; attempt <= max; attempt++: the number of rounds
abbrev pub rounds : ℤ → ℕ
rounds (pos n) = suc n
rounds (negsuc n) = 0

module _ (en : Engine) where
  open en use {World, Ctx, Provider, name, ctx_err, translate, now_ms, jitter, sleep, notify, float}

  abbrev pub count_timeout : Name → Option TimeoutReason → State en → State en
  count_timeout n none s = s
  count_timeout n (some reason) s = record s {
    events = inc_timeouts_total ∷ record_provider_timeout n reason ∷ s.events;
  }

  -- A call of the provider, and what it counts.
  unfoldable pub attempt_once :
      Provider → Ctx → TranslateRequest → State en → Result Text × State en
  attempt_once p ctx req s =
      let (r, w) = translate p ctx req s.world in
      elim r [
        | ok text ↦ (
          ok text,
          record s {
            world = w;
            events =
                record_provider_latency (name p) (now_ms w - now_ms s.world)
                ∷ inc_provider_success (name p)
                ∷ s.events;
          },
        )
        | err e ↦ (
          err e,
          count_timeout (name p) (classify_timeout_reason e) (record s {
            world = w;
            events = inc_retries_total ∷ record_provider_retry (name p) ∷ s.events;
          }),
        )
      ]

  abbrev pub retry_notice : Name → ℕ → ℕ → Notice
  retry_notice n provider_total attempt =
      if ltb 1 provider_total then retrying_on n (attempt + 2) else retrying

  -- The notification and the pause before the next attempt.
  unfoldable pub pause : Provider → Ctx → ℕ → ℕ → ℕ → State en → Option GoError × State en
  pause p ctx provider_total attempt backoff s =
      let (extra, w) = jitter backoff s.world in
      let (woken, w') =
        sleep ctx (backoff + extra) (notify ctx (retry_notice (name p) provider_total attempt) w) in
      (woken, record s { world = w' })

  abbrev pub next_backoff : OrchestratorConfig → ℕ → ℕ
  next_backoff cfg backoff =
      if ltb cfg.max_backoff (backoff * 2) then cfg.max_backoff else backoff * 2

  -- The end of the loop: every attempt has failed.
  abbrev pub exhausted : OrchestratorConfig → Provider → Option GoError → State en → Try × State en
  exhausted cfg p last s = (
    record {
      answer =
          err (wrap_last (codes "provider " ++ codes (name p) ++ codes " retry exhausted: ") last);
      retries = cfg.max_retries_per_provider;
    },
    record s { events = inc_provider_exhausted (name p) ∷ s.events },
  )

  -- The loop of tryProviderWithRetry with so many rounds left; the round without another after it is the one
  -- where attempt == MaxRetriesPerProvider.
  unfoldable pub try_from :
      ℕ
      → ℕ
      → ℕ
      → Option GoError
      → OrchestratorConfig
      → Ctx
      → Provider
      → TranslateRequest
      → ℕ
      → State en
      → Try × State en
  try_from zero attempt backoff last cfg ctx p req total s = exhausted cfg p last s
  try_from (suc left) attempt backoff last cfg ctx p req total s = elim (ctx_err ctx s.world) [
    | some done ↦ (record { answer = err done; retries = pos attempt }, s)
    | none ↦
        let (r, s1) = attempt_once p ctx req s in
        elim r [
          | ok text ↦ (record { answer = ok text; retries = pos attempt }, s1)
          | err e ↦ elim (is_orchestrator_transient_error e) [
            | false ↦ (record { answer = err e; retries = pos attempt }, s1)
            | true ↦ elim left [
              | zero ↦ exhausted cfg p (some e) s1
              | suc more ↦
                  let (woken, s2) = pause p ctx total attempt backoff s1 in
                  elim woken [
                    | some done ↦ (record { answer = err done; retries = pos attempt }, s2)
                    | none ↦
                        try_from left (attempt + 1) (next_backoff cfg backoff) (some e) cfg ctx p
                          req total s2
                  ]
            ]
          ]
        ]
  ]

  unfoldable pub try_provider_with_retry :
      OrchestratorConfig → Ctx → Provider → TranslateRequest → ℕ → State en → Try × State en
  try_provider_with_retry cfg ctx p req total s =
      try_from (rounds cfg.max_retries_per_provider) 0 cfg.initial_backoff none cfg ctx p req total
        s
