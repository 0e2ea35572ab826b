-- ===== src/Ocr/Chain.antt =====
-- The chain of OCR providers, with its fallbacks and their budget
-- (backend/internal/services/ocr_provider_chain.go). The functions for PDFs and for images differ in the
-- provider's method and in the test of its result; one function stands for both.
pub mod Names
pub mod Fallback
pub mod Budget
pub mod Selection
use Prim.Native.String.{String}
use text.Mathlib.Text.{◌==◌ as str_eq}
use lok_lingo.Prelude.{
  ℕ, zero, suc, ◌+◌, ◌≡◌, Bool, true, false, not, ◌||◌, ◌&&◌, List, [], ◌∷◌, ◌++◌, Option, none,
  some, ltb, ◌==◌, if◌then◌else◌, length,
}
use lok_lingo.Prelude.Int.{ℤ, pos, negsuc}
use lok_lingo.Go.Text.{Text, text_eq, is_empty, codes, to_lower, trim_space}
use lok_lingo.Go.Number.{decimal}
use lok_lingo.Go.Failure.{plain_error, GoError, Result, ok, err}
pub use lok_lingo.Ocr.Chain.Names.{
  OcrName, paddle, tesseract, ollama, unlimited, name_text, same_ocr, engine_for_provider,
}
unfoldable pub use lok_lingo.Ocr.Chain.Names.{normalize_ocr_provider, provider_order}

-- The parts of OCRRequest and OCRResult that the chain looks at; `Rest` is what it passes on.
pub record OcrRequest : Type 0 where
  pub lang : Text
  pub engine : Text
  pub file_path : Text

pub record OcrResult (Rest : Type 0) : Type 0 where
  pub text : Text
  pub pages : ℕ
  pub blocks : ℕ
  pub retries : ℕ
  pub provider : Text
  pub engine : Text
  pub rest : Rest

-- What the chain counts.
pub data OcrEvent : Type 0 where
  inc_ocr_provider_fallback inc_ocr_provider_fallback_budget_exhausted : OcrEvent
  inc_ocr_provider_used : Text → OcrEvent
  inc_ocr_provider_retries : ℕ → OcrEvent

pub record OcrEngine : Type 1 where
  pub World : Type 0
  pub Provider : Type 0
  pub Rest : Type 0
  pub name : Provider → OcrName
  -- ExtractPDFText or ExtractImageText under the timeout of the provider; a nil result is `none`
  pub extract : Provider → OcrRequest → World → Result (Option (OcrResult Rest)) × World
  pub is_pdf : Bool

-- fmt.Errorf with a fallback count that may be negative
abbrev pub integer : ℤ → Text
integer (pos n) = decimal n
integer (negsuc n) = codes "-" ++ decimal (suc n)

abbrev pub wrap_ocr : Text → Option GoError → GoError
wrap_ocr prefix (some e) = record e { message = prefix ++ e.message }
wrap_ocr prefix none = plain_error (prefix ++ codes "%!w(<nil>)")

module _ (en : OcrEngine) where
  open en use {World, Provider, Rest, name, extract, is_pdf}

  pub record OcrState : Type 0 where
    pub world : World
    pub events : List OcrEvent  -- the newest first

  -- validateProviderResult
  unfoldable pub validate_provider_result : Option (OcrResult Rest) → Option GoError
  validate_provider_result none = some (plain_error (codes "ocr: provider returned nil result"))
  validate_provider_result (some result) =
      if is_pdf
      then (if is_empty (trim_space result.text) && result.pages == 0
          then some (plain_error (codes "ocr: service returned empty response"))
          else none)
      else (if result.blocks == 0
          then some (plain_error (codes "ocr: image response returned no blocks"))
          else none)

  abbrev pub has_name : OcrName → Provider → Bool
  has_name n p = same_ocr (name p) n

  unfoldable pub select : (Provider → Bool) → List Provider → List Provider
  select test [] = []
  select test (p ∷ ps) = let rest = select test ps in if test p then p ∷ rest else rest

  abbrev pub order_for : Option OcrName → List Provider → List Provider
  order_for (some paddle) ps =
      select (has_name paddle) ps ++ select (λ p. not (has_name paddle p)) ps
  order_for (some unlimited) ps =
      select (has_name unlimited) ps ++ select (λ p. not (has_name unlimited p)) ps
  order_for _ ps = ps

  unfoldable pub providers_for_request : List Provider → Text → List Provider
  providers_for_request ps engine = order_for (normalize_ocr_provider engine) ps

  abbrev pub engine_at : ℕ → Text → Provider → Text
  engine_at idx engine p =
      if text_eq engine (codes "auto") && idx == 0
      then codes "auto"
      else engine_for_provider (name p)

  -- One call of a provider, and the test of its result.
  unfoldable pub extract_valid :
      Provider → OcrRequest → OcrState → Result (OcrResult Rest) × OcrState
  extract_valid p req s =
      let (r, w) = extract p req s.world in
      let s' = record s { world = w } in
      elim r [
        | err e ↦ (err e, s')
        | ok found ↦ elim (validate_provider_result found) [
          | some e ↦ (err e, s')
          | none ↦ elim found [ none ↦ (err (plain_error []), s') | some result ↦ (ok result, s') ]
        ]
      ]

  -- The names that the result gets, and its retries.
  abbrev pub labelled : Provider → ℕ → OcrResult Rest → OcrResult Rest
  labelled p retries result =
      if is_empty result.engine
      then record result {
        provider = name_text (name p);
        engine = name_text (name p);
        retries = result.retries + retries;
      }
      else record result { provider = result.engine; retries = result.retries + retries }

  abbrev pub count_used : OcrResult Rest → OcrState → OcrState
  count_used result s =
      if ltb 0 result.retries
      then record s {
        events =
            inc_ocr_provider_retries result.retries
            ∷ inc_ocr_provider_used result.provider
            ∷ s.events;
      }
      else record s { events = inc_ocr_provider_used result.provider ∷ s.events }

  -- c.maxFallbackCount >= 0 && fallbacks > c.maxFallbackCount
  abbrev pub is_over : ℤ → ℕ → Bool
  is_over (pos n) fallbacks = ltb n fallbacks
  is_over (negsuc n) fallbacks = false

  -- c.maxFallbackCount < 0 || fallbacks < c.maxFallbackCount
  abbrev pub has_budget : ℤ → ℕ → Bool
  has_budget (pos n) fallbacks = ltb fallbacks n
  has_budget (negsuc n) fallbacks = true

  abbrev pub budget_error : ℤ → Option GoError → GoError
  budget_error max_fallback_count last =
      wrap_ocr
        (codes "ocr: fallback budget exhausted after "
          ++ integer max_fallback_count
          ++ codes " fallback(s): ")
        last

  abbrev pub count_fallback : OcrState → OcrState
  count_fallback s = record s { events = inc_ocr_provider_fallback ∷ s.events }

  abbrev pub count_exhausted : OcrState → OcrState
  count_exhausted s = record s { events = inc_ocr_provider_fallback_budget_exhausted ∷ s.events }

  -- The loop over the providers from index `idx` on. The retries are as many as the fallbacks.
  unfoldable pub fall_back :
      ℤ
      → ℕ
      → ℕ
      → Option GoError
      → OcrRequest
      → List Provider
      → OcrState
      → Result (OcrResult Rest) × OcrState
  fall_back max idx fallbacks last req [] s =
      (err (wrap_ocr (codes "ocr: all providers exhausted: ") last), s)
  fall_back max idx fallbacks last req (p ∷ []) s =
      if is_over max fallbacks
      then (err (budget_error max last), s)
      else let (r, s1) = extract_valid p (record req { engine = engine_at idx req.engine p }) s in
        elim r [
          | ok result ↦
              (ok (labelled p fallbacks result), count_used (labelled p fallbacks result) s1)
          | err e ↦ (err (wrap_ocr (codes "ocr: all providers exhausted: ") (some e)), s1)
        ]
  fall_back max idx fallbacks last req (p ∷ q ∷ ps) s =
      if is_over max fallbacks
      then (err (budget_error max last), s)
      else let (r, s1) = extract_valid p (record req { engine = engine_at idx req.engine p }) s in
        elim r [
          | ok result ↦
              (ok (labelled p fallbacks result), count_used (labelled p fallbacks result) s1)
          | err e ↦ elim (has_budget max fallbacks) [
            | true ↦
                fall_back max (idx + 1) (fallbacks + 1) (some e) req (q ∷ ps) (count_fallback s1)
            | false ↦ (err (budget_error max (some e)), count_exhausted s1)
          ]
        ]

  abbrev pub with_lang : OcrRequest → OcrRequest
  with_lang req = if is_empty req.lang then record req { lang = codes "auto" } else req

  -- extractPDFWithFallback and extractImageWithFallback
  unfoldable pub extract_with_fallback :
      ℤ → List Provider → OcrRequest → OcrState → Result (OcrResult Rest) × OcrState
  extract_with_fallback max [] req s = (err (plain_error (codes "ocr: no providers configured")), s)
  extract_with_fallback max (p ∷ ps) req s =
      fall_back max 0 0 none (with_lang req) (providers_for_request (p ∷ ps) req.engine) s
