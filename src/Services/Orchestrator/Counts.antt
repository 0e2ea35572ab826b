-- ===== src/Services/Orchestrator/Counts.antt =====
-- What a call of Translate counts (backend/services/orchestrator.go).
use mathlib.Core.Path.{subst}
use lok_lingo.Prelude.Perms.{length-perm}
use lok_lingo.Prelude.{
  ℕ, suc, ◌+◌, ◌-◌, ◌*◌, ◌≤◌, ◌≡◌, refl, ap, inl, inr, ◌&&◌, List, [], ◌∷◌, Option, none,
  Bool-cases, Option-cases, arith, length, ltb,
}
use lok_lingo.Prelude.Int.{ℤ, pos, negsuc}
use lok_lingo.Go.Text.{Text}
use lok_lingo.Go.Failure.{GoError, Result, ok, err}
use lok_lingo.Services.Health.{ordered_providers_by_health}
use lok_lingo.Services.Health.Order.{ordered_providers_by_health-AllRanked}
use lok_lingo.Services.Orchestrator.Retry.{
  TranslateRequest, OrchestratorConfig, Engine, State, rounds,
}
use lok_lingo.Services.Orchestrator.Errors.{classify_timeout_reason}
use lok_lingo.Services.Orchestrator.{
  translate_by, translate_from, note_success, note_failure, announce, orchestrate,
}
use lok_lingo.Services.Orchestrator.Answers.{is_ok}
use lok_lingo.Services.Orchestrator.Rounds.{translate_from_rule, tried}
use lok_lingo.Services.Orchestrator.Tries.{
  one_if, successes, failed_attempts, failures, failovers, tried-IsTried,
}

module _ (en : Engine) where
  -- What Translate counts from the provider with the index `pi` on, with so many attempts for each of the rest.
  pub record IsCounted (attempts pi providers : ℕ) (s : State en) (r : Result Text) (s' : State en)
      : Type 0 where
    pub succeeded : successes en s' ≡ successes en s + one_if (is_ok r)
    pub bounded :
        failed_attempts en s' + one_if (is_ok r) ≤ failed_attempts en s + providers * attempts
    pub failed : failures en s' + one_if (is_ok r) ≤ failures en s + providers
    pub grown : failures en s ≤ failures en s'
    pub moved :
        failovers en s'
        ≡ failovers en s + one_if (is_ok r && ltb 0 (pi + (failures en s' - failures en s)))

-- One attempt, and the retries; none if the retries are negative.
abbrev pub most_attempts : ℤ → ℕ
most_attempts (pos n) = n + 1
most_attempts (negsuc n) = 0

rounds-most_attempts : (n : ℤ) → rounds n ≡ most_attempts n
rounds-most_attempts (pos n) = omega arith
rounds-most_attempts (negsuc n) = refl

suc-times : (l a : ℕ) → suc l * a ≡ l * a + a
suc-times l a = grind arith

module _ (en : Engine) (cfg : OrchestratorConfig) (ctx : en.Ctx) (req : TranslateRequest) where
  note_failure_counts :
      (p : en.Provider) (e : GoError) (ps : List en.Provider) (s : State en)
      → let s' = announce en ctx ps (note_failure en p e s) in
        (successes en s' ≡ successes en s)
        × (failed_attempts en s' ≡ failed_attempts en s)
        × (failures en s' ≡ failures en s + 1)
        × (failovers en s' ≡ failovers en s)
  unfolding note_failure
  note_failure_counts p e [] s = elim (Option-cases (classify_timeout_reason e)) [
    | inl k ↦ rw (k, note_failure) (omega arith)
    | inr (reason, k) ↦ rw (k, note_failure) (omega arith)
  ]
  note_failure_counts p e (q ∷ ps) s = elim (Option-cases (classify_timeout_reason e)) [
    | inl k ↦ rw (k, note_failure) (omega arith)
    | inr (reason, k) ↦ rw (k, note_failure) (omega arith)
  ]

  note_success_counts :
      (pi : ℕ) (p : en.Provider) (retries : ℤ) (s : State en)
      → let s' = note_success en pi p retries s in
        (successes en s' ≡ successes en s)
        × (failed_attempts en s' ≡ failed_attempts en s)
        × (failures en s' ≡ failures en s)
        × (failovers en s' ≡ failovers en s + one_if (ltb 0 pi))
  unfolding note_success
  note_success_counts pi p retries s = elim (Bool-cases (ltb 0 pi)) [
    | inl k ↦ rw (k, note_success) (omega arith)
    | inr k ↦ rw (k, note_success) (omega arith)
  ]

  abbrev attempts : ℕ
  attempts = rounds cfg.max_retries_per_provider

  failed_IsCounted :
      (pi total : ℕ) (p : en.Provider) (ps : List en.Provider) (s : State en) (e : GoError)
      (r : Result Text) (s' : State en)
      → (tried en cfg ctx req p total s).0.answer ≡ err e
      → IsCounted en attempts
          (pi + 1)
          (length ps)
          (announce en ctx ps (note_failure en p e (tried en cfg ctx req p total s).1))
          r
          s'
      → IsCounted en attempts pi (suc (length ps)) s r s'
  failed_IsCounted pi total p ps s e r s' k q =
      let t = tried-IsTried en cfg ctx req p total s in
      let n = note_failure_counts p e ps (tried en cfg ctx req p total s).1 in
      let b : one_if (is_ok (tried en cfg ctx req p total s).0.answer) ≡ 0 =
        ap (λ x. one_if (is_ok x)) k in
      record {
        succeeded = omega (arith, t.succeeded, n, b, q.succeeded);
        bounded = omega (arith, t.bounded, n, b, q.bounded, suc-times (length ps) attempts);
        failed = omega (arith, t.unfailed, n, q.failed);
        grown = omega (arith, t.unfailed, n, q.grown);
        moved = ground (arith, t.unmoved, t.unfailed, n, q.moved, q.grown);
      }

  succeeded_IsCounted :
      (pi total : ℕ) (p : en.Provider) (ps : List en.Provider) (s : State en) (text : Text)
      → (tried en cfg ctx req p total s).0.answer ≡ ok text
      → IsCounted en attempts pi (suc (length ps)) s (ok text) (
          note_success en pi p
            (tried en cfg ctx req p total s).0.retries
            (tried en cfg ctx req p total s).1)
  succeeded_IsCounted pi total p ps s text k =
      let t = tried-IsTried en cfg ctx req p total s in
      let n =
        note_success_counts pi p (tried en cfg ctx req p total s).0.retries
          (tried en cfg ctx req p total s).1 in
      let b : one_if (is_ok (tried en cfg ctx req p total s).0.answer) ≡ 1 =
        ap (λ x. one_if (is_ok x)) k in
      record {
        succeeded = omega (arith, t.succeeded, n, b);
        bounded = omega (arith, t.bounded, n, b, suc-times (length ps) attempts);
        failed = omega (arith, t.unfailed, n);
        grown = omega (arith, t.unfailed, n);
        moved = ground (arith, t.unmoved, t.unfailed, n);
      }

  nothing_IsCounted :
      (pi n : ℕ) (s : State en) (e : GoError) → IsCounted en attempts pi n s (err e) s
  nothing_IsCounted pi n s e = record {
    succeeded = omega arith;
    bounded = grind arith;
    failed = omega arith;
    grown = omega arith;
    moved = omega arith;
  }

  translate_from-IsCounted :
      (pi : ℕ) (ps : List en.Provider) (total : ℕ) (last : Option GoError) (s : State en)
      → let (r, s') = translate_from en pi ps total last cfg ctx req s in
        IsCounted en attempts pi (length ps) s r s'
  translate_from-IsCounted pi ps total last s =
      translate_from_rule en cfg ctx req
        (λ pi ps s r s'. IsCounted en attempts pi (length ps) s r s')
        (record {
          at_end = λ pi s e. nothing_IsCounted pi 0 s e;
          at_done = λ pi p ps s e h. nothing_IsCounted pi (suc (length ps)) s e;
          at_success = succeeded_IsCounted;
          at_failure = failed_IsCounted;
        })
        pi ps total last s

  translate_by-IsCounted :
      (ps : List en.Provider) (s : State en)
      → let (r, s') = translate_by en ps cfg ctx req s in IsCounted en attempts 0 (length ps) s r s'
  translate_by-IsCounted [] s = nothing_IsCounted 0 0 s _
  translate_by-IsCounted (p ∷ ps) s = translate_from-IsCounted 0 (p ∷ ps) (length (p ∷ ps)) none s

  order_IsCounted :
      (ps : List en.Provider) (s : State en)
      → let (r, s') = translate_by en ps cfg ctx req s in
        IsCounted en (most_attempts cfg.max_retries_per_provider) 0 (length ps) s r s'
  order_IsCounted ps s =
      subst
        (λ a. let (r, s') = translate_by en ps cfg ctx req s in IsCounted en a 0 (length ps) s r s')
        (rounds-most_attempts cfg.max_retries_per_provider) (translate_by-IsCounted ps s)

  -- A call of Translate counts one success if it returns a text, and none if it returns an error. The failed
  -- attempts that it counts, and the success, are together at most one more than the retries for each
  -- registered provider. It counts at most one failure for each provider, and one less if it returns a text;
  -- and one failover if it returns a text after a failure, and else none.
  pub orchestrate-IsCounted :
      (registered : List en.Provider) (s : State en)
      → let (r, s') = orchestrate en registered cfg ctx req s in
        IsCounted en (most_attempts cfg.max_retries_per_provider) 0 (length registered) s r s'
  unfolding orchestrate
  orchestrate-IsCounted registered s =
      subst
        (λ n.
          let (r, s') = orchestrate en registered cfg ctx req s in
          IsCounted en (most_attempts cfg.max_retries_per_provider) 0 n s r s')
        (length-perm (ordered_providers_by_health-AllRanked en.float en.name s.scores registered).0)
        (order_IsCounted (ordered_providers_by_health en.float en.name s.scores registered) s)
