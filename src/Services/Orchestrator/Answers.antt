-- ===== src/Services/Orchestrator/Answers.antt =====
-- Whose answer Translate returns, and when it has one (backend/services/orchestrator.go).
use mathlib.Core.List.{Mem, Perm, mem-cons, mem-cons_self, mem-cons_of_mem, not-mem-nil}
use mathlib.Core.List.Perm
use mathlib.Core.Path.{subst}
use mathlib.Core.Logic.Or
use mathlib.Core.Bool.{Bool-set}
use lok_lingo.Prelude.{
  ℕ, ◌≡◌, refl, sym, ap, ◌∙◌, inl, inr, Bool, true, false, List, [], ◌∷◌, Option, none, arith,
  length,
}
use lok_lingo.Prelude.Int.{pos}
use lok_lingo.Go.Text.{Text}
use lok_lingo.Go.Failure.{GoError, Result, ok, err, Result-cases}
use lok_lingo.Services.Health.{ordered_providers_by_health}
use lok_lingo.Services.Health.Order.{ordered_providers_by_health-AllRanked}
use lok_lingo.Services.Orchestrator.Retry.{
  TranslateRequest, OrchestratorConfig, Engine, State, attempt_once, try_from,
  try_provider_with_retry, rounds,
}
use lok_lingo.Services.Orchestrator.{translate_from, translate_by, orchestrate}
use lok_lingo.Services.Orchestrator.Rounds.{try_from_rule, translate_from_rule, attempted, tried}

module _ (en : Engine) (cfg : OrchestratorConfig) (ctx : en.Ctx) (req : TranslateRequest) where
  -- A call of the provider in some world gives this text.
  abbrev pub IsAnswerOf : en.Provider → Text → Type 0
  IsAnswerOf p text = (w : en.World) × ((en.translate p ctx req w).0 ≡ ok text)

  -- A success is the answer of a call.
  abbrev IsCalled : en.Provider → Result Text → Type 0
  IsCalled p (ok text) = IsAnswerOf p text
  IsCalled p (err e) = Unit

  attempted-answer :
      (p : en.Provider) (s : State en)
      → (attempted en cfg ctx req p s).0 ≡ (en.translate p ctx req s.world).0
  unfolding attempt_once
  attempted-answer p s = elim (Result-cases (en.translate p ctx req s.world).0) [
    | inl (t, e) ↦ rw (e, attempt_once) refl
    | inr (x, e) ↦ rw (e, attempt_once) refl
  ]

  tried-IsCalled :
      (p : en.Provider) (total : ℕ) (s : State en)
      → IsCalled p (tried en cfg ctx req p total s).0.answer
  unfolding try_provider_with_retry
  tried-IsCalled p total s =
      try_from_rule en cfg ctx req p (λ left s r s'. IsCalled p r)
        (record {
          at_end = λ s last. tt;
          at_done = λ left s e h. tt;
          at_ok = λ left s text h k. (s.world, sym (attempted-answer p s) ∙ k);
          at_permanent = λ left s e k. tt;
          at_last = λ s e k. tt;
          at_woken = λ left total attempt backoff s e done k v. tt;
          at_retry = λ left total attempt backoff s e r s' k q. q;
        })
        (rounds cfg.max_retries_per_provider) 0 cfg.initial_backoff none total s

  -- A success is the answer of a call of one of the providers.
  abbrev pub IsAnswered : List en.Provider → Result Text → Type 0
  IsAnswered ps (ok text) = (p : en.Provider) × Mem p ps × IsAnswerOf p text
  IsAnswered ps (err e) = Unit

  tried-answer :
      (p : en.Provider) (total : ℕ) (s : State en) (text : Text)
      → (tried en cfg ctx req p total s).0.answer ≡ ok text
      → IsAnswerOf p text
  tried-answer p total s text e = subst (IsCalled p) e (tried-IsCalled p total s)

  IsAnswered-cons :
      (p : en.Provider) (ps : List en.Provider) (r : Result Text)
      → IsAnswered ps r
      → IsAnswered (p ∷ ps) r
  IsAnswered-cons p ps (ok text) (q, m, a) = (q, mem-cons_of_mem p m, a)
  IsAnswered-cons p ps (err e) h = tt

  translate_from-IsAnswered :
      (pi : ℕ) (ps : List en.Provider) (total : ℕ) (last : Option GoError) (s : State en)
      → IsAnswered ps (translate_from en pi ps total last cfg ctx req s).0
  translate_from-IsAnswered pi ps total last s =
      translate_from_rule en cfg ctx req (λ pi ps s r s'. IsAnswered ps r)
        (record {
          at_end = λ pi s e. tt;
          at_done = λ pi p ps s e h. tt;
          at_success = λ pi total p ps s text k. (p, mem-cons_self, tried-answer p total s text k);
          at_failure = λ pi total p ps s e r s' k q. IsAnswered-cons p ps r q;
        })
        pi ps total last s

  translate_by-IsAnswered :
      (ps : List en.Provider) (s : State en) → IsAnswered ps (translate_by en ps cfg ctx req s).0
  translate_by-IsAnswered [] s = tt
  translate_by-IsAnswered (p ∷ ps) s = translate_from-IsAnswered 0 (p ∷ ps) (length (p ∷ ps)) none s

  IsAnswered-perm :
      {ps qs : List en.Provider}
      → Perm ps qs
      → (r : Result Text) → IsAnswered ps r
      → IsAnswered qs r
  IsAnswered-perm h (ok text) (p, m, a) = (p, (Perm.mem_iff h).0 m, a)
  IsAnswered-perm h (err e) a = tt

  -- A text that Translate returns is what one of the registered providers answered to the request.
  pub orchestrate-IsAnswered :
      (registered : List en.Provider) (s : State en)
      → IsAnswered registered (orchestrate en registered cfg ctx req s).0
  unfolding orchestrate
  orchestrate-IsAnswered registered s =
      IsAnswered-perm (ordered_providers_by_health-AllRanked en.float en.name s.scores registered).0
        _
        (translate_by-IsAnswered (ordered_providers_by_health en.float en.name s.scores registered)
          s)

abbrev pub is_ok {ℓ} : {A : Type ℓ} → Result A → Bool
is_ok (ok a) = true
is_ok (err e) = false

module _ (en : Engine) (cfg : OrchestratorConfig) (ctx : en.Ctx) (req : TranslateRequest) (n : ℕ)
    (retries : cfg.max_retries_per_provider ≡ pos n)
    (alive : (w : en.World) → en.ctx_err ctx w ≡ none) (p : en.Provider)
    (answers : (w : en.World) → is_ok (en.translate p ctx req w).0 ≡ true) where
  tried-is_ok : (total : ℕ) (s : State en) → is_ok (tried en cfg ctx req p total s).0.answer ≡ true
  unfolding try_provider_with_retry try_from
  tried-is_ok total s =
      rw (retries, try_provider_with_retry)
        (elim (Result-cases (en.translate p ctx req s.world).0) [
          | inl (text, e) ↦
              rw (alive s.world, try_from) (rw (attempted-answer en cfg ctx req p s ∙ e) refl)
          | inr (x, e) ↦ absurd (ground (arith, answers s.world, e))
        ])

  refuted :
      (total : ℕ) (s : State en) (q : en.Provider) (e : GoError)
      → p ≡ q
      → (tried en cfg ctx req q total s).0.answer ≡ err e
      → ⊥
  refuted total s q e i k =
      ground
        (arith, tried-is_ok total s, ap (λ x. is_ok (tried en cfg ctx req x total s).0.answer) i, k)

  translate_from-is_ok :
      (pi : ℕ) (ps : List en.Provider) (total : ℕ) (last : Option GoError) (s : State en)
      → Mem p ps
      → is_ok (translate_from en pi ps total last cfg ctx req s).0 ≡ true
  translate_from-is_ok pi ps total last s =
      translate_from_rule en cfg ctx req (λ pi ps s r s'. Mem p ps → is_ok r ≡ true)
        (record {
          at_end = λ pi s e m. absurd (not-mem-nil m);
          at_done = λ pi q ps s e h m. absurd (ground (arith, alive s.world, h));
          at_success = λ pi total q ps s text k m. refl;
          at_failure = λ pi total q ps s e r s' k later m.
              Or.elim (Bool-set _ _) (mem-cons.0 m)
                (λ (i : p ≡ q). absurd (refuted total s q e i k)) later;
        })
        pi ps total last s

  translate_by-is_ok :
      (ps : List en.Provider) (s : State en)
      → Mem p ps
      → is_ok (translate_by en ps cfg ctx req s).0 ≡ true
  translate_by-is_ok [] s m = absurd (not-mem-nil m)
  translate_by-is_ok (q ∷ ps) s m = translate_from-is_ok 0 (q ∷ ps) (length (q ∷ ps)) none s m

  -- If the number of retries is not negative, the context is never done, and one of the registered providers answers whenever it is
  -- called, then Translate returns a text, whatever the other providers do and whatever the scores are.
  pub orchestrate-is_ok :
      (registered : List en.Provider) (s : State en)
      → Mem p registered
      → is_ok (orchestrate en registered cfg ctx req s).0 ≡ true
  unfolding orchestrate
  orchestrate-is_ok registered s m =
      translate_by-is_ok (ordered_providers_by_health en.float en.name s.scores registered) s (
        (Perm.mem_iff
            (ordered_providers_by_health-AllRanked en.float en.name s.scores registered).0).1
          m)
