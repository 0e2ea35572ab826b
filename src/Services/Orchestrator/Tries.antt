-- ===== src/Services/Orchestrator/Tries.antt =====
-- What the attempts on one provider count (backend/services/orchestrator.go).
use lok_lingo.Prelude.{
  ℕ, ◌+◌, ◌≤◌, ◌≡◌, refl, ap, inl, inr, Bool, true, false, List, [], ◌∷◌, none, Option-cases, arith,
  if◌then◌else◌,
}
use lok_lingo.Go.Text.{Text}
use lok_lingo.Go.Failure.{Result, ok, err, Result-cases}
use lok_lingo.Services.Orchestrator.Retry.{
  TranslateRequest, OrchestratorConfig, Engine, State, Event, attempt_once, pause,
  try_provider_with_retry, rounds, inc_provider_success, record_provider_retry,
  inc_provider_failure, inc_provider_failover,
}
use lok_lingo.Services.Orchestrator.Errors.{classify_timeout_reason}
use lok_lingo.Services.Orchestrator.Answers.{is_ok}
use lok_lingo.Services.Orchestrator.Rounds.{try_from_rule, attempted, tried}

abbrev pub is_success : Event → Bool
is_success (inc_provider_success n) = true
is_success _ = false

abbrev pub is_retry : Event → Bool
is_retry (record_provider_retry n) = true
is_retry _ = false

abbrev pub is_failure : Event → Bool
is_failure (inc_provider_failure n) = true
is_failure _ = false

abbrev pub is_failover : Event → Bool
is_failover (inc_provider_failover n) = true
is_failover _ = false

abbrev pub one_if : Bool → ℕ
one_if b = if b then 1 else 0

-- The number of events of a kind.
abbrev pub tally : (Event → Bool) → List Event → ℕ
tally kind [] = 0
tally kind (e ∷ es) = one_if (kind e) + tally kind es

module _ (en : Engine) where
  abbrev pub successes : State en → ℕ
  successes s = tally is_success s.events

  abbrev pub failed_attempts : State en → ℕ
  failed_attempts s = tally is_retry s.events

  abbrev pub failures : State en → ℕ
  failures s = tally is_failure s.events

  abbrev pub failovers : State en → ℕ
  failovers s = tally is_failover s.events

  -- What the tries of one provider count in so many rounds: every attempt once, and no failure or failover.
  pub record IsTried (left : ℕ) (s : State en) (r : Result Text) (s' : State en) : Type 0 where
    pub succeeded : successes s' ≡ successes s + one_if (is_ok r)
    pub bounded : failed_attempts s' + one_if (is_ok r) ≤ failed_attempts s + left
    pub unfailed : failures s' ≡ failures s
    pub unmoved : failovers s' ≡ failovers s

module _ (en : Engine) (cfg : OrchestratorConfig) (ctx : en.Ctx) (req : TranslateRequest) where
  attempted_counts :
      (p : en.Provider) (s : State en)
      → let (r, s') = attempted en cfg ctx req p s in
        (successes en s' ≡ successes en s + one_if (is_ok r))
        × (failed_attempts en s' + one_if (is_ok r) ≡ failed_attempts en s + 1)
        × (failures en s' ≡ failures en s)
        × (failovers en s' ≡ failovers en s)
  unfolding attempt_once
  attempted_counts p s = elim (Result-cases (en.translate p ctx req s.world).0) [
    | inl (t, e) ↦ rw (e, attempt_once) (omega arith)
    | inr (x, e) ↦ elim (Option-cases (classify_timeout_reason x)) [
      | inl k ↦ rw (e, attempt_once) (rw k (omega arith))
      | inr (reason, k) ↦ rw (e, attempt_once) (rw k (omega arith))
    ]
  ]

  -- What an attempt with this answer counts.
  answered_counts :
      (p : en.Provider) (s : State en) (r : Result Text)
      → (attempted en cfg ctx req p s).0 ≡ r
      → let s' = (attempted en cfg ctx req p s).1 in
        (successes en s' ≡ successes en s + one_if (is_ok r))
        × (failed_attempts en s' + one_if (is_ok r) ≡ failed_attempts en s + 1)
        × (failures en s' ≡ failures en s)
        × (failovers en s' ≡ failovers en s)
  answered_counts p s r k = omega (arith, attempted_counts p s, ap (λ q. one_if (is_ok q)) k)

  pause-events :
      (p : en.Provider) (total attempt backoff : ℕ) (s : State en)
      → (pause en p ctx total attempt backoff s).1.events ≡ s.events
  unfolding pause
  pause-events p total attempt backoff s = refl

  pub tried-IsTried :
      (p : en.Provider) (total : ℕ) (s : State en)
      → let (t, s') = tried en cfg ctx req p total s in
        IsTried en (rounds cfg.max_retries_per_provider) s t.answer s'
  unfolding try_provider_with_retry
  tried-IsTried p total s =
      try_from_rule en cfg ctx req p (IsTried en)
        (record {
          at_end = λ s last. record {
            succeeded = omega arith;
            bounded = omega arith;
            unfailed = omega arith;
            unmoved = omega arith;
          };
          at_done = λ left s e h. record {
            succeeded = omega arith;
            bounded = omega arith;
            unfailed = omega arith;
            unmoved = omega arith;
          };
          at_ok = λ left s text h k.
              let c = answered_counts p s (ok text) k in
              record {
                succeeded = omega (arith, c);
                bounded = omega (arith, c);
                unfailed = omega (arith, c);
                unmoved = omega (arith, c);
              };
          at_permanent = λ left s e k.
              let c = answered_counts p s (err e) k in
              record {
                succeeded = omega (arith, c);
                bounded = omega (arith, c);
                unfailed = omega (arith, c);
                unmoved = omega (arith, c);
              };
          at_last = λ s e k.
              let c = answered_counts p s (err e) k in
              record {
                succeeded = omega (arith, c);
                bounded = omega (arith, c);
                unfailed = omega (arith, c);
                unmoved = omega (arith, c);
              };
          at_woken = λ left total attempt backoff s e done k v.
              let c = answered_counts p s (err e) k in
              let q = pause-events p total attempt backoff (attempted en cfg ctx req p s).1 in
              record {
                succeeded = rw q (omega (arith, c));
                bounded = rw q (omega (arith, c));
                unfailed = rw q (omega (arith, c));
                unmoved = rw q (omega (arith, c));
              };
          at_retry = λ left total attempt backoff s e r s' k q.
              let c = answered_counts p s (err e) k in
              let t = (attempted en cfg ctx req p s).1 in
              record {
                succeeded = omega (
                  arith,
                  c,
                  q.succeeded,
                  ap (tally is_success) (pause-events p total attempt backoff t),
                );
                bounded = omega (
                  arith,
                  c,
                  q.bounded,
                  ap (tally is_retry) (pause-events p total attempt backoff t),
                );
                unfailed = omega (
                  arith,
                  c,
                  q.unfailed,
                  ap (tally is_failure) (pause-events p total attempt backoff t),
                );
                unmoved = omega (
                  arith,
                  c,
                  q.unmoved,
                  ap (tally is_failover) (pause-events p total attempt backoff t),
                );
              };
        })
        (rounds cfg.max_retries_per_provider) 0 cfg.initial_backoff none total s
