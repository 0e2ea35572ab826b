-- ===== src/Services/Orchestrator/Rounds.antt =====
-- Induction on the loops of tryProviderWithRetry and Translate (backend/services/orchestrator.go): what
-- holds of each way that a round can go holds of the whole.
use lok_lingo.Prelude.{
  ℕ, zero, suc, ◌+◌, ◌≡◌, inl, inr, List, [], ◌∷◌, Option, none, some, Bool-cases, Option-cases,
}
use lok_lingo.Go.Text.{Text}
use lok_lingo.Go.Failure.{GoError, Result, ok, err, Result-cases}
use lok_lingo.Services.Orchestrator.Retry.{
  TranslateRequest, OrchestratorConfig, Engine, State, Try, attempt_once, pause, next_backoff,
  exhausted, try_from, try_provider_with_retry,
}
use lok_lingo.Services.Orchestrator.Errors.{is_orchestrator_transient_error}
use lok_lingo.Services.Orchestrator.{translate_from, note_success, note_failure, announce}

module _ (en : Engine) (cfg : OrchestratorConfig) (ctx : en.Ctx) (req : TranslateRequest) where
  abbrev pub attempted : en.Provider → State en → Result Text × State en
  attempted p s = attempt_once en p ctx req s

  -- Rules for a predicate of the rounds left, the first state, and the answer with the last state.
  pub record IsRule (p : en.Provider) (Q : ℕ → State en → Result Text → State en → Type 0)
      : Type 0 where
    pub at_end :
        (s : State en) (last : Option GoError)
        → let (t, s') = exhausted en cfg p last s in Q 0 s t.answer s'
    pub at_done :
        (left : ℕ) (s : State en) (e : GoError)
        → en.ctx_err ctx s.world ≡ some e
        → Q (suc left) s (err e) s
    pub at_ok :
        (left : ℕ) (s : State en) (text : Text)
        → en.ctx_err ctx s.world ≡ none
        → (attempted p s).0 ≡ ok text
        → Q (suc left) s (ok text) (attempted p s).1
    pub at_permanent :
        (left : ℕ) (s : State en) (e : GoError)
        → (attempted p s).0 ≡ err e
        → Q (suc left) s (err e) (attempted p s).1
    pub at_last :
        (s : State en) (e : GoError)
        → (attempted p s).0 ≡ err e
        → let (t, s') = exhausted en cfg p (some e) (attempted p s).1 in Q 1 s t.answer s'
    pub at_woken :
        (left total attempt backoff : ℕ) (s : State en) (e done : GoError)
        → (attempted p s).0 ≡ err e
        → (pause en p ctx total attempt backoff (attempted p s).1).0 ≡ some done
        → Q (suc (suc left)) s (err done) (pause en p ctx total attempt backoff (attempted p s).1).1
    pub at_retry :
        (left total attempt backoff : ℕ) (s : State en) (e : GoError) (r : Result Text)
        (s' : State en)
        → (attempted p s).0 ≡ err e
        → Q (suc left) (pause en p ctx total attempt backoff (attempted p s).1).1 r s'
        → Q (suc (suc left)) s r s'

  module _ (p : en.Provider) (Q : ℕ → State en → Result Text → State en → Type 0)
      (rule : IsRule p Q) where
    pub try_from_rule :
        (left attempt backoff : ℕ) (last : Option GoError) (total : ℕ) (s : State en)
        → let (t, s') = try_from en left attempt backoff last cfg ctx p req total s in
          Q left s t.answer s'
    unfolding try_from
    try_from_rule zero attempt backoff last total s = rule.at_end s last
    try_from_rule (suc zero) attempt backoff last total s =
        elim (Option-cases (en.ctx_err ctx s.world)) [
          | inr (e, h) ↦ rw (h, try_from) (rule.at_done zero s e h)
          | inl h ↦ elim (Result-cases (attempted p s).0) [
            | inl (text, k) ↦ rw (h, try_from) (rw k (rule.at_ok zero s text h k))
            | inr (e, k) ↦ elim (Bool-cases (is_orchestrator_transient_error e)) [
              | inr q ↦ rw (h, try_from) (rw k (rw q (rule.at_permanent zero s e k)))
              | inl q ↦ rw (h, try_from) (rw k (rw q (rule.at_last s e k)))
            ]
          ]
        ]
    try_from_rule (suc (suc left)) attempt backoff last total s =
        elim (Option-cases (en.ctx_err ctx s.world)) [
          | inr (e, h) ↦ rw (h, try_from) (rule.at_done (suc left) s e h)
          | inl h ↦ elim (Result-cases (attempted p s).0) [
            | inl (text, k) ↦ rw (h, try_from) (rw k (rule.at_ok (suc left) s text h k))
            | inr (e, k) ↦ elim (Bool-cases (is_orchestrator_transient_error e)) [
              | inr q ↦ rw (h, try_from) (rw k (rw q (rule.at_permanent (suc left) s e k)))
              | inl q ↦
                  elim (Option-cases (pause en p ctx total attempt backoff (attempted p s).1).0) [
                    | inr (done, v) ↦
                        rw (h, try_from)
                          (rw k
                            (rw q (rw v (rule.at_woken left total attempt backoff s e done k v))))
                    | inl v ↦
                        rw (h, try_from)
                          (rw k (
                            rw q (
                              rw v (
                                rule.at_retry left total attempt backoff s e _ _ k (
                                  try_from_rule (suc left) (attempt + 1)
                                    (next_backoff en cfg backoff) (some e) total
                                    (pause en p ctx total attempt backoff (attempted p s).1).1)))))
                  ]
            ]
          ]
        ]

  abbrev pub tried : en.Provider → ℕ → State en → Try × State en
  tried p total s = try_provider_with_retry en cfg ctx p req total s

  -- Rules for a predicate of the index, the providers from there on, the first state, and the answer with the
  -- last state.
  pub record IsFailoverRule (R : ℕ → List en.Provider → State en → Result Text → State en → Type 0)
      : Type 0 where
    pub at_end : (pi : ℕ) (s : State en) (e : GoError) → R pi [] s (err e) s
    pub at_done :
        (pi : ℕ) (p : en.Provider) (ps : List en.Provider) (s : State en) (e : GoError)
        → en.ctx_err ctx s.world ≡ some e
        → R pi (p ∷ ps) s (err e) s
    pub at_success :
        (pi total : ℕ) (p : en.Provider) (ps : List en.Provider) (s : State en) (text : Text)
        → (tried p total s).0.answer ≡ ok text
        → R pi
            (p ∷ ps)
            s
            (ok text)
            (note_success en pi p (tried p total s).0.retries (tried p total s).1)
    pub at_failure :
        (pi total : ℕ) (p : en.Provider) (ps : List en.Provider) (s : State en) (e : GoError)
        (r : Result Text) (s' : State en)
        → (tried p total s).0.answer ≡ err e
        → R (pi + 1) ps (announce en ctx ps (note_failure en p e (tried p total s).1)) r s'
        → R pi (p ∷ ps) s r s'

  module _ (R : ℕ → List en.Provider → State en → Result Text → State en → Type 0)
      (rule : IsFailoverRule R) where
    pub translate_from_rule :
        (pi : ℕ) (ps : List en.Provider) (total : ℕ) (last : Option GoError) (s : State en)
        → let (r, s') = translate_from en pi ps total last cfg ctx req s in R pi ps s r s'
    unfolding translate_from
    translate_from_rule pi [] total last s = rule.at_end pi s _
    translate_from_rule pi (p ∷ ps) total last s = elim (Option-cases (en.ctx_err ctx s.world)) [
      | inr (e, h) ↦ rw (h, translate_from) (rule.at_done pi p ps s e h)
      | inl h ↦ elim (Result-cases (tried p total s).0.answer) [
        | inl (text, k) ↦ rw (h, translate_from) (rw k (rule.at_success pi total p ps s text k))
        | inr (e, k) ↦
            rw (h, translate_from)
              (rw k (
                rule.at_failure pi total p ps s e _ _ k (
                  translate_from_rule (pi + 1) ps total (some e)
                    (announce en ctx ps (note_failure en p e (tried p total s).1)))))
      ]
    ]
