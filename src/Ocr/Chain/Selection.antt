-- ===== src/Ocr/Chain/Selection.antt =====
-- The order in which a request tries the OCR providers (backend/internal/services/ocr_provider_chain.go).
use mathlib.Core.List.{Perm, perm_middle}
use mathlib.Core.List.Perm
use lok_lingo.Prelude.{
  ◌≡◌, inl, inr, Bool, true, false, not, List, [], ◌∷◌, ◌++◌, Option, none, some, Bool-cases, any,
  arith,
}
use lok_lingo.Go.Text.{Text}
use lok_lingo.Ocr.Chain.{
  OcrName, paddle, tesseract, ollama, unlimited, OcrEngine, has_name, select, order_for,
  providers_for_request, normalize_ocr_provider,
}

module _ (en : OcrEngine) where
  select-Perm :
      (test : en.Provider → Bool) (ps : List en.Provider)
      → Perm (select en test ps ++ select en (λ p. not (test p)) ps) ps
  unfolding select
  select-Perm test [] = Perm.rfl
  select-Perm test (p ∷ ps) = elim (Bool-cases (test p)) [
    | inl e ↦ rw (e, select) (Perm.cons p (select-Perm test ps))
    | inr e ↦
        rw (e, select)
          (Perm.trans (perm_middle (select en test ps) (select en (λ q. not (test q)) ps))
            (Perm.cons p (select-Perm test ps)))
  ]

  abbrev pub is_first : OcrName → List en.Provider → Bool
  is_first n [] = false
  is_first n (p ∷ ps) = has_name en n p

  select-is_first :
      (n : OcrName) (ps qs : List en.Provider)
      → any (has_name en n) ps ≡ true
      → is_first n (select en (has_name en n) ps ++ qs) ≡ true
  unfolding select
  select-is_first n [] qs h = absurd (ground (arith, h))
  select-is_first n (p ∷ ps) qs h = elim (Bool-cases (has_name en n p)) [
    | inl e ↦ rw (e, select) e
    | inr e ↦ rw (e, select) (select-is_first n ps qs (ground (arith, h, e)))
  ]

  order_for-Perm : (n : Option OcrName) (ps : List en.Provider) → Perm (order_for en n ps) ps
  order_for-Perm none ps = Perm.rfl
  order_for-Perm (some paddle) ps = select-Perm (has_name en paddle) ps
  order_for-Perm (some unlimited) ps = select-Perm (has_name en unlimited) ps
  order_for-Perm (some tesseract) ps = Perm.rfl
  order_for-Perm (some ollama) ps = Perm.rfl

  -- The engines that a request can put first.
  abbrev pub is_requestable : OcrName → Bool
  is_requestable paddle = true
  is_requestable unlimited = true
  is_requestable _ = false

  order_for-is_first :
      (n : OcrName) (ps : List en.Provider)
      → is_requestable n ≡ true
      → any (has_name en n) ps ≡ true
      → is_first n (order_for en (some n) ps) ≡ true
  order_for-is_first paddle ps r h = select-is_first paddle ps _ h
  order_for-is_first unlimited ps r h = select-is_first unlimited ps _ h
  order_for-is_first tesseract ps r h = absurd (ground (arith, r))
  order_for-is_first ollama ps r h = absurd (ground (arith, r))

  pub providers_for_request-Perm :
      (ps : List en.Provider) (engine : Text) → Perm (providers_for_request en ps engine) ps
  unfolding providers_for_request
  providers_for_request-Perm ps engine = order_for-Perm (normalize_ocr_provider engine) ps

  -- A request that names paddle or unlimited, in any case and with spaces around it, when that provider is
  -- configured, tries it first, and each configured provider once.
  pub providers_for_request-is_first :
      (ps : List en.Provider) (engine : Text) (n : OcrName)
      → normalize_ocr_provider engine ≡ some n
      → is_requestable n ≡ true
      → any (has_name en n) ps ≡ true
      → (is_first n (providers_for_request en ps engine) ≡ true)
        × Perm (providers_for_request en ps engine) ps
  unfolding providers_for_request
  providers_for_request-is_first ps engine n e r h = (
    rw (e, providers_for_request) (order_for-is_first n ps r h),
    order_for-Perm (normalize_ocr_provider engine) ps,
  )
