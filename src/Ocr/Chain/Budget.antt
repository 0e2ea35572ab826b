-- ===== src/Ocr/Chain/Budget.antt =====
-- How often the chain of OCR providers falls back (backend/internal/services/ocr_provider_chain.go).
use mathlib.Core.Path.{subst}
use lok_lingo.Prelude.Perms.{length-perm}
use lok_lingo.Ocr.Chain.Selection.{providers_for_request-Perm}
use lok_lingo.Prelude.{
  ℕ, ◌+◌, ◌-◌, ◌≤◌, ◌≡◌, refl, ap, ◌∙◌, inl, inr, Bool, true, false, List, [], ◌∷◌, Option, none,
  some, ltb, if◌then◌else◌, length, Bool-cases, Option-cases, arith,
}
use lok_lingo.Prelude.Int.{ℤ, pos, negsuc}
use lok_lingo.Go.Failure.{GoError, Result-cases}
use lok_lingo.Ocr.Chain.{
  OcrEngine, OcrResult, OcrState, OcrRequest, OcrEvent, inc_ocr_provider_fallback, extract_valid,
  fall_back, extract_with_fallback, providers_for_request, is_over, has_budget, engine_at,
  count_fallback, count_exhausted, count_used, labelled, with_lang, validate_provider_result,
}

abbrev pub is_fallback : OcrEvent → Bool
is_fallback inc_ocr_provider_fallback = true
is_fallback _ = false

abbrev pub fallback_events : List OcrEvent → ℕ
fallback_events [] = 0
fallback_events (e ∷ es) = (if is_fallback e then 1 else 0) + fallback_events es

-- Between the two states at most so many fallbacks are counted: one less than the providers, and no more than the budget has left.
pub record IsFrugal (en : OcrEngine) (max : ℤ) (f providers : ℕ) (s s' : OcrState en) : Type 0 where
  pub by_length : fallback_events s'.events ≤ fallback_events s.events + (providers - 1)
  pub by_budget :
      (n : ℕ) → max ≡ pos n → f ≤ n → fallback_events s'.events + f ≤ fallback_events s.events + n

module _ (en : OcrEngine) (max : ℤ) where
  extract_valid-events :
      (p : en.Provider) (req : OcrRequest) (s : OcrState en)
      → (extract_valid en p req s).1.events ≡ s.events
  unfolding extract_valid
  extract_valid-events p req s = elim (Result-cases (en.extract p req s.world).0) [
    | inr (x, e) ↦ rw (e, extract_valid) refl
    | inl (found, e) ↦ elim (Option-cases (validate_provider_result en found)) [
      | inr (x, v) ↦ rw (e, extract_valid) (rw v refl)
      | inl v ↦ elim (Option-cases found) [
        | inl n ↦ rw (e, extract_valid) (rw v (rw n refl))
        | inr (r, n) ↦ rw (e, extract_valid) (rw v (rw n refl))
      ]
    ]
  ]

  count_used-events :
      (r : OcrResult en.Rest) (s : OcrState en)
      → fallback_events (count_used en r s).events ≡ fallback_events s.events
  count_used-events r s = elim (Bool-cases (ltb 0 r.retries)) [
    | inl e ↦ rw e (omega arith)
    | inr e ↦ rw e (omega arith)
  ]

  unchanged :
      (f n : ℕ) (s s' : OcrState en)
      → fallback_events s'.events ≡ fallback_events s.events
      → IsFrugal en max f n s s'
  unchanged f n s s' e = record {
    by_length = omega (arith, e);
    by_budget = λ m q h. omega (arith, e, h);
  }

  fall_back-IsFrugal :
      (idx f : ℕ) (last : Option GoError) (req : OcrRequest) (ps : List en.Provider)
      (s : OcrState en)
      → IsFrugal en max f (length ps) s (fall_back en max idx f last req ps s).1
  unfolding fall_back
  fall_back-IsFrugal idx f last req [] s = unchanged f 0 s s refl
  fall_back-IsFrugal idx f last req (p ∷ []) s = elim (Bool-cases (is_over en max f)) [
    | inl o ↦ rw (o, fall_back) (unchanged f 1 s s refl)
    | inr o ↦
        let req' : OcrRequest = record req { engine = engine_at en idx req.engine p } in
        elim (Result-cases (extract_valid en p req' s).0) [
          | inl (r, z) ↦
              rw (o, fall_back)
                (rw z (
                  unchanged f 1 s _ (
                    count_used-events (labelled en p f r) (extract_valid en p req' s).1
                    ∙ ap fallback_events (extract_valid-events p req' s))))
          | inr (x, z) ↦
              rw (o, fall_back)
                (rw z (unchanged f 1 s _ (ap fallback_events (extract_valid-events p req' s))))
        ]
  ]
  fall_back-IsFrugal idx f last req (p ∷ q ∷ ps) s = elim (Bool-cases (is_over en max f)) [
    | inl o ↦ rw (o, fall_back) (unchanged f (length (p ∷ q ∷ ps)) s s refl)
    | inr o ↦
        let req' : OcrRequest = record req { engine = engine_at en idx req.engine p } in
        let s1 = (extract_valid en p req' s).1 in
        let same = ap fallback_events (extract_valid-events p req' s) in
        elim (Result-cases (extract_valid en p req' s).0) [
          | inl (r, z) ↦
              rw (o, fall_back)
                (rw z (
                  unchanged f (length (p ∷ q ∷ ps)) s _
                    (count_used-events (labelled en p f r) s1 ∙ same)))
          | inr (x, z) ↦ elim (Bool-cases (has_budget en max f)) [
            | inr b ↦
                rw (o, fall_back)
                  (rw z (
                    rw b (
                      unchanged f (length (p ∷ q ∷ ps)) s (count_exhausted en s1)
                        (omega (arith, same)))))
            | inl b ↦
                rw (o, fall_back)
                  (rw z (
                    rw b (
                      again idx f p q ps x s s1 _ same b (
                        fall_back-IsFrugal (idx + 1) (f + 1) (some x) req (q ∷ ps)
                          (count_fallback en s1)))))
          ]
        ]
  ]
    where
      again :
          (idx f : ℕ) (p q : en.Provider) (ps : List en.Provider) (x : GoError)
          (s s1 t : OcrState en)
          → fallback_events s1.events ≡ fallback_events s.events
          → has_budget en max f ≡ true
          → IsFrugal en max (f + 1) (length (q ∷ ps)) (count_fallback en s1) t
          → IsFrugal en max f (length (p ∷ q ∷ ps)) s t
      again idx f p q ps x s s1 t same b r = record {
        by_length = omega (arith, same, r.by_length);
        by_budget = λ n e h. omega (arith, same, r.by_budget n e (below n e b));
      }
        where
          below : (n : ℕ) → max ≡ pos n → has_budget en max f ≡ true → f + 1 ≤ n
          below n e b = ground (arith, ap (λ m. has_budget en m f) e, b)

  by_order-IsFrugal :
      (ps : List en.Provider) (req : OcrRequest) (s : OcrState en)
      → IsFrugal en max 0 (length ps) s (extract_with_fallback en max ps req s).1
  unfolding extract_with_fallback
  by_order-IsFrugal [] req s = unchanged 0 0 s s refl
  by_order-IsFrugal (p ∷ ps) req s =
      subst (λ n. IsFrugal en max 0 n s (extract_with_fallback en max (p ∷ ps) req s).1)
        (length-perm (providers_for_request-Perm en (p ∷ ps) req.engine))
        (fall_back-IsFrugal 0 0 none (with_lang en req)
          (providers_for_request en (p ∷ ps) req.engine) s)

-- From so many to so many fallbacks the budget is kept; a negative budget has no end.
abbrev pub IsUnderBudget : ℤ → ℕ → ℕ → Type 0
IsUnderBudget (pos n) first last = last ≤ first + n
IsUnderBudget (negsuc n) first last = Unit

under_budget :
    (en : OcrEngine) (max : ℤ) (n : ℕ) (s s' : OcrState en)
    → IsFrugal en max 0 n s s'
    → IsUnderBudget max (fallback_events s.events) (fallback_events s'.events)
under_budget en (pos m) n s s' h = omega (arith, h.by_budget m refl (omega arith))
under_budget en (negsuc m) n s s' h = tt

-- The chain falls back at most once for each provider but the first, and, if the budget is not negative, no
-- more often than that.
pub extract_with_fallback-IsUnderBudget :
    (en : OcrEngine) (max : ℤ) (ps : List en.Provider) (req : OcrRequest) (s : OcrState en)
    → let s' = (extract_with_fallback en max ps req s).1 in
      (fallback_events s'.events ≤ fallback_events s.events + (length ps - 1))
      × IsUnderBudget max (fallback_events s.events) (fallback_events s'.events)
extract_with_fallback-IsUnderBudget en max ps req s =
    let h = by_order-IsFrugal en max ps req s in
    (h.by_length, under_budget en max (length ps) s _ h)
