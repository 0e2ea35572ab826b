-- ===== src/Ocr/Chain/Fallback.antt =====
-- When the chain of OCR providers has a result (backend/internal/services/ocr_provider_chain.go).
use lok_lingo.Prelude.{
  ℕ, zero, suc, ◌+◌, ◌≤◌, ◌<◌, ◌≡◌, refl, ap, ◌∙◌, inl, inr, true, false, List, [], ◌∷◌, Option,
  none, some, length, arith, get_elem?,
}
use lok_lingo.Prelude.Int.{ℤ, pos, negsuc}
use lok_lingo.Go.Failure.{GoError, ok, err, Result-cases}
use lok_lingo.Services.Orchestrator.Answers.{is_ok}
use lok_lingo.Ocr.Chain.{
  OcrEngine, OcrResult, OcrState, OcrRequest, extract_valid, fall_back, extract_with_fallback,
  providers_for_request, is_over, has_budget, engine_at, count_fallback, with_lang,
}

-- So many fallbacks are within the budget; a negative budget has no end.
abbrev pub IsWithinBudget : ℤ → ℕ → Type 0
IsWithinBudget (pos n) k = k ≤ n
IsWithinBudget (negsuc n) k = Unit

module _ (en : OcrEngine) where
  is_over-within : (max : ℤ) (f k : ℕ) → IsWithinBudget max (f + k) → is_over en max f ≡ false
  is_over-within (pos n) f k h = ground (arith, h)
  is_over-within (negsuc n) f k h = refl

  has_budget-within :
      (max : ℤ) (f k : ℕ) → IsWithinBudget max (f + suc k) → has_budget en max f ≡ true
  has_budget-within (pos n) f k h = ground (arith, h)
  has_budget-within (negsuc n) f k h = refl

  IsWithinBudget-step :
      (max : ℤ) (f k : ℕ) → IsWithinBudget max (f + suc k) → IsWithinBudget max (f + 1 + k)
  IsWithinBudget-step (pos n) f k h = omega (arith, h)
  IsWithinBudget-step (negsuc n) f k h = tt

from_zero : (max : ℤ) (k : ℕ) → IsWithinBudget max k → IsWithinBudget max (0 + k)
from_zero (pos n) k h = omega (arith, h)
from_zero (negsuc n) k h = tt

module _ (en : OcrEngine) (max : ℤ) (p : en.Provider)
    (answers : (req : OcrRequest) (s : OcrState en)
      → is_ok (extract_valid en p req s).0 ≡ true) where
  answered :
      (q : en.Provider)
      → Path (Option en.Provider) (some q) (some p)
      → (req : OcrRequest) (s : OcrState en) → is_ok (extract_valid en q req s).0 ≡ true
  answered q e req s =
      ap
        (λ (o : Option en.Provider). elim o [
          | none ↦ true
          | some x ↦ is_ok (extract_valid en x req s).0
        ])
        e
      ∙ answers req s

  not_failed :
      (q : en.Provider)
      → Path (Option en.Provider) (some q) (some p)
      → (req : OcrRequest) (s : OcrState en) (x : GoError) → (extract_valid en q req s).0 ≡ err x
      → ⊥
  not_failed q e req s x k = ground (arith, answered q e req s, k)

  fall_back-valid :
      (idx f : ℕ) (last : Option GoError) (req : OcrRequest) (q : en.Provider)
      (ps : List en.Provider) (s : OcrState en) (found : OcrResult en.Rest)
      → is_over en max f ≡ false
      → (extract_valid en q (record req { engine = engine_at en idx req.engine q }) s).0 ≡ ok found
      → is_ok (fall_back en max idx f last req (q ∷ ps) s).0 ≡ true
  unfolding fall_back
  fall_back-valid idx f last req q [] s found o e = rw (o, fall_back) (rw e refl)
  fall_back-valid idx f last req q (q' ∷ ps) s found o e = rw (o, fall_back) (rw e refl)

  fall_back-is_ok :
      (k idx f : ℕ) (last : Option GoError) (req : OcrRequest) (ps : List en.Provider)
      (s : OcrState en)
      → get_elem? ps k ≡ some p
      → IsWithinBudget max (f + k)
      → is_ok (fall_back en max idx f last req ps s).0 ≡ true
  unfolding fall_back
  fall_back-is_ok k idx f last req [] s e h = absurd (ground (arith, e))
  fall_back-is_ok zero idx f last req (q ∷ ps) s e h =
      let req' : OcrRequest = record req { engine = engine_at en idx req.engine q } in
      elim (Result-cases (extract_valid en q req' s).0) [
        | inl (found, k) ↦
            fall_back-valid idx f last req q ps s found (is_over-within en max f 0 h) k
        | inr (x, k) ↦ absurd (not_failed q e req' s x k)
      ]
  fall_back-is_ok (suc k) idx f last req (q ∷ []) s e h = absurd (ground (arith, e))
  fall_back-is_ok (suc k) idx f last req (q ∷ q' ∷ ps) s e h =
      let req' : OcrRequest = record req { engine = engine_at en idx req.engine q } in
      let in_time = is_over-within en max f (suc k) h in
      elim (Result-cases (extract_valid en q req' s).0) [
        | inl (found, z) ↦ fall_back-valid idx f last req q (q' ∷ ps) s found in_time z
        | inr (x, z) ↦
            rw (in_time, fall_back)
              (rw z (
                rw (has_budget-within en max f k h) (
                  fall_back-is_ok k (idx + 1) (f + 1) (some x) req (q' ∷ ps)
                    (count_fallback en (extract_valid en q req' s).1) e
                    (IsWithinBudget-step en max f k h))))
      ]

  by_order-is_ok :
      (ps : List en.Provider) (k : ℕ) (req : OcrRequest) (s : OcrState en)
      → get_elem? (providers_for_request en ps req.engine) k ≡ some p
      → IsWithinBudget max k
      → 0 < length ps
      → is_ok (extract_with_fallback en max ps req s).0 ≡ true
  unfolding extract_with_fallback
  by_order-is_ok [] k req s e h n = absurd (omega arith)
  by_order-is_ok (q ∷ ps) k req s e h n =
      fall_back-is_ok k 0 0 none (with_lang en req) (providers_for_request en (q ∷ ps) req.engine) s
        e (from_zero max k h)

-- If one of the providers gives a valid result whenever it is called, and it is reached within the budget of fallbacks, then the
-- chain has a result, whatever the providers before it do.
pub extract_with_fallback-is_ok :
    (en : OcrEngine) (max : ℤ) (p : en.Provider)
    → ((req : OcrRequest) (s : OcrState en) → is_ok (extract_valid en p req s).0 ≡ true)
    → (ps : List en.Provider) (k : ℕ) (req : OcrRequest) (s : OcrState en)
    → get_elem? (providers_for_request en ps req.engine) k ≡ some p
    → IsWithinBudget max k
    → 0 < length ps
    → is_ok (extract_with_fallback en max ps req s).0 ≡ true
extract_with_fallback-is_ok en max p answers = by_order-is_ok en max p answers
