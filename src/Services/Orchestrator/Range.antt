-- ===== src/Services/Orchestrator/Range.antt =====
-- The range of the health scores under Translate (backend/services/orchestrator.go).
use lok_lingo.Prelude.{
  ℕ, ◌≡◌, refl, sym, ◌∙◌, inl, inr, List, [], ◌∷◌, Option, none, some, Bool-cases, Option-cases,
  length, ltb,
}
use mathlib.Core.Path.{subst}
use lok_lingo.Prelude.Int.{ℤ}
use lok_lingo.Go.Failure.{GoError, Result-cases}
use lok_lingo.Services.Health.{
  Name, Scores, same_name, update_provider_health, ordered_providers_by_health, entry,
}
use lok_lingo.Services.Health.Order.{IsInRange, blend_provider_health-IsInRange}
use lok_lingo.Services.Orchestrator.Retry.{
  TranslateRequest, OrchestratorConfig, Engine, State, attempt_once, pause, try_provider_with_retry,
  rounds,
}
use lok_lingo.Services.Orchestrator.Errors.{classify_timeout_reason}
use lok_lingo.Services.Orchestrator.{
  translate_by, translate_from, note_success, note_failure, announce, orchestrate,
}
use lok_lingo.Services.Orchestrator.Rounds.{try_from_rule, translate_from_rule, attempted, tried}

module _ (en : Engine) where
  abbrev pub IsEntryInRange : Option en.float.Number → Type 0
  IsEntryInRange none = Unit
  IsEntryInRange (some v) = IsInRange en.float v

  -- Every score that is recorded is in range.
  abbrev pub AllInRange : Scores en.float → Type 0
  AllInRange scores = (n : Name) → IsEntryInRange (scores n)

  update_provider_health-AllInRange :
      (name : Name) (target : en.float.Number) (scores : Scores en.float)
      → AllInRange scores
      → AllInRange (update_provider_health en.float name target scores)
  unfolding update_provider_health
  update_provider_health-AllInRange name target scores h n = elim (Bool-cases (same_name name n)) [
    | inl k ↦
        rw (k, update_provider_health)
          (blend_provider_health-IsInRange en.float (entry en.float (scores name)) target)
    | inr k ↦ rw (k, update_provider_health) (h n)
  ]

  note_success-scores :
      (pi : ℕ) (p : en.Provider) (retries : ℤ) (s : State en)
      → AllInRange s.scores
      → AllInRange (note_success en pi p retries s).scores
  unfolding note_success
  note_success-scores pi p retries s h = elim (Bool-cases (ltb 0 pi)) [
    | inl k ↦ rw (k, note_success) (update_provider_health-AllInRange (en.name p) _ s.scores h)
    | inr k ↦ rw (k, note_success) (update_provider_health-AllInRange (en.name p) _ s.scores h)
  ]

  note_failure-scores :
      (p : en.Provider) (e : GoError) (ctx : en.Ctx) (ps : List en.Provider) (s : State en)
      → AllInRange s.scores
      → AllInRange (announce en ctx ps (note_failure en p e s)).scores
  unfolding note_failure
  note_failure-scores p e ctx [] s h = elim (Option-cases (classify_timeout_reason e)) [
    | inl k ↦ rw (k, note_failure) (update_provider_health-AllInRange (en.name p) _ s.scores h)
    | inr (reason, k) ↦
        rw (k, note_failure) (update_provider_health-AllInRange (en.name p) _ s.scores h)
  ]
  note_failure-scores p e ctx (q ∷ ps) s h = elim (Option-cases (classify_timeout_reason e)) [
    | inl k ↦ rw (k, note_failure) (update_provider_health-AllInRange (en.name p) _ s.scores h)
    | inr (reason, k) ↦
        rw (k, note_failure) (update_provider_health-AllInRange (en.name p) _ s.scores h)
  ]

module _ (en : Engine) (cfg : OrchestratorConfig) (ctx : en.Ctx) (req : TranslateRequest) where
  attempted-scores :
      (p : en.Provider) (s : State en) → (attempted en cfg ctx req p s).1.scores ≡ s.scores
  unfolding attempt_once
  attempted-scores p s = elim (Result-cases (en.translate p ctx req s.world).0) [
    | inl (t, e) ↦ rw (e, attempt_once) refl
    | inr (x, e) ↦ elim (Option-cases (classify_timeout_reason x)) [
      | inl k ↦ rw (e, attempt_once) (rw k refl)
      | inr (reason, k) ↦ rw (e, attempt_once) (rw k refl)
    ]
  ]

  pause-scores :
      (p : en.Provider) (total attempt backoff : ℕ) (s : State en)
      → (pause en p ctx total attempt backoff s).1.scores ≡ s.scores
  unfolding pause
  pause-scores p total attempt backoff s = refl

  tried-scores :
      (p : en.Provider) (total : ℕ) (s : State en)
      → (tried en cfg ctx req p total s).1.scores ≡ s.scores
  unfolding try_provider_with_retry
  tried-scores p total s =
      try_from_rule en cfg ctx req p (λ left s r s'. s'.scores ≡ s.scores)
        (record {
          at_end = λ s last. refl;
          at_done = λ left s e h. refl;
          at_ok = λ left s text h k. attempted-scores p s;
          at_permanent = λ left s e k. attempted-scores p s;
          at_last = λ s e k. attempted-scores p s;
          at_woken = λ left total attempt backoff s e done k v.
              pause-scores p total attempt backoff (attempted en cfg ctx req p s).1
              ∙ attempted-scores p s;
          at_retry = λ left total attempt backoff s e r s' k q.
              q
              ∙ pause-scores p total attempt backoff (attempted en cfg ctx req p s).1
              ∙ attempted-scores p s;
        })
        (rounds cfg.max_retries_per_provider) 0 cfg.initial_backoff none total s

  translate_from-AllInRange :
      (pi : ℕ) (ps : List en.Provider) (total : ℕ) (last : Option GoError) (s : State en)
      → AllInRange en s.scores
      → AllInRange en (translate_from en pi ps total last cfg ctx req s).1.scores
  translate_from-AllInRange pi ps total last s =
      translate_from_rule en cfg ctx req
        (λ pi ps s r s'. AllInRange en s.scores → AllInRange en s'.scores)
        (record {
          at_end = λ pi s e h. h;
          at_done = λ pi p ps s e k h. h;
          at_success = λ pi total p ps s text k h.
              note_success-scores en pi p _ (tried en cfg ctx req p total s).1
                (subst (AllInRange en) (sym (tried-scores p total s)) h);
          at_failure = λ pi total p ps s e r s' k q h. q (
              note_failure-scores en p e ctx ps (tried en cfg ctx req p total s).1
                (subst (AllInRange en) (sym (tried-scores p total s)) h));
        })
        pi ps total last s

  translate_by-AllInRange :
      (ps : List en.Provider) (s : State en)
      → AllInRange en s.scores
      → AllInRange en (translate_by en ps cfg ctx req s).1.scores
  translate_by-AllInRange [] s h = h
  translate_by-AllInRange (p ∷ ps) s h =
      translate_from-AllInRange 0 (p ∷ ps) (length (p ∷ ps)) none s h

  -- A call of Translate keeps every recorded health score between 0.05 and 1.5, whatever the arithmetic of the
  -- blend gives.
  pub orchestrate-AllInRange :
      (registered : List en.Provider) (s : State en)
      → AllInRange en s.scores
      → AllInRange en (orchestrate en registered cfg ctx req s).1.scores
  unfolding orchestrate
  orchestrate-AllInRange registered s h =
      translate_by-AllInRange (ordered_providers_by_health en.float en.name s.scores registered) s h
