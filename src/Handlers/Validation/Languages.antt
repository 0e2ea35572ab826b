-- ===== src/Handlers/Validation/Languages.antt =====
-- What the validation of the language codes accepts (backend/handlers/validation.go).
use mathlib.Core.Path.{subst}
use lok_lingo.Handlers.Validation.Pattern.{
  IsLanguageCode, language_code_pattern-all_plain, language_code_pattern-IsLanguageCode,
  all_plain-normalize_lang_code, all_plain,
}
use lok_lingo.Prelude.{◌≡◌, refl, sym, ◌⊎◌, inl, inr, true, false, [], ◌∷◌, arith, Bool-cases}
use lok_lingo.Go.Text.{Text, codes, text_eq, is_empty}
use lok_lingo.Go.Failure.{ok}
use lok_lingo.Go.Equal.{text_eq→eq}
use lok_lingo.Handlers.Validation.{
  language_code_pattern, normalize_lang_code, is_valid_source_language, is_valid_target_language,
  or_auto, check_source_target, normalize_and_validate_source_target,
}

-- What the check lets through, and what it was given.
check_source_target-parts :
    (s t source target : Text)
    → check_source_target s t ≡ ok (source, target)
    → (source ≡ or_auto s)
      × (target ≡ t)
      × (is_valid_source_language source ≡ true)
      × (is_valid_target_language target ≡ true)
check_source_target-parts s t source target h = elim (Bool-cases (is_empty t)) [
  | inl e ↦ absurd (ground (arith, e, h))
  | inr e ↦ elim (Bool-cases (is_valid_source_language (or_auto s))) [
    | inl f ↦ elim (Bool-cases (is_valid_target_language t)) [
      | inl g ↦ ground (arith, e, f, g, h)
      | inr g ↦ absurd (ground (arith, e, f, g, h))
    ]
    | inr f ↦ absurd (ground (arith, e, f, h))
  ]
]

is_valid_source_language-parts :
    (v : Text)
    → is_valid_source_language v ≡ true
    → (v ≡ codes "auto") ⊎ (language_code_pattern v ≡ true)
unfolding is_valid_source_language
is_valid_source_language-parts v h = elim (Bool-cases (text_eq v (codes "auto"))) [
  | inl e ↦ inl (text_eq→eq v (codes "auto") e)
  | inr e ↦ inr (ground (arith, e, h))
]

is_valid_target_language-pattern :
    (v : Text) → is_valid_target_language v ≡ true → language_code_pattern v ≡ true
unfolding is_valid_target_language
is_valid_target_language-pattern v h = ground (arith, h)

-- A code, or "auto", is not empty and is left as it is by another normalisation.
IsNormal : Text → Type 0
IsNormal v = (normalize_lang_code v ≡ v) × (is_empty v ≡ false)

language_code_pattern-IsNormal : (v : Text) → language_code_pattern v ≡ true → IsNormal v
unfolding IsNormal language_code_pattern
language_code_pattern-IsNormal [] h = absurd cc
language_code_pattern-IsNormal (c ∷ s) h =
    (all_plain-normalize_lang_code (c ∷ s) (language_code_pattern-all_plain (c ∷ s) h), refl)

auto-IsNormal : IsNormal (codes "auto")
unfolding IsNormal all_plain
auto-IsNormal = (all_plain-normalize_lang_code (codes "auto") refl, refl)

source-IsNormal : (v : Text) → is_valid_source_language v ≡ true → IsNormal v
source-IsNormal v h = elim (is_valid_source_language-parts v h) [
  | inl e ↦ subst IsNormal (sym e) auto-IsNormal
  | inr e ↦ language_code_pattern-IsNormal v e
]

checked_again :
    (source target : Text)
    → is_valid_source_language source ≡ true
    → is_valid_target_language target ≡ true
    → normalize_and_validate_source_target source target ≡ ok (source, target)
unfolding normalize_and_validate_source_target IsNormal
checked_again source target h k =
    let (n, e) = source-IsNormal source h in
    let (m, f) =
      language_code_pattern-IsNormal target (is_valid_target_language-pattern target k) in
    rw (n, m, e, f, h, k) refl

-- The languages that the validation gives back for a request are a source that is "auto" or a language code (two or three letters,
-- with a dash and two to eight letters and digits behind them or without) and a target that is a language
-- code, all in lower case; and validating them again gives back the same two.
pub normalize_and_validate_source_target-normal :
    (source_raw target_raw source target : Text)
    → normalize_and_validate_source_target source_raw target_raw ≡ ok (source, target)
    → ((source ≡ codes "auto") ⊎ IsLanguageCode source)
      × IsLanguageCode target
      × (normalize_and_validate_source_target source target ≡ ok (source, target))
unfolding normalize_and_validate_source_target
normalize_and_validate_source_target-normal source_raw target_raw source target h =
    let (a, b, c, d) =
      check_source_target-parts (normalize_lang_code source_raw) (normalize_lang_code target_raw)
        source target h in
    (
      elim (is_valid_source_language-parts source c) [
        | inl e ↦ inl e
        | inr e ↦ inr (language_code_pattern-IsLanguageCode source e)
      ],
      language_code_pattern-IsLanguageCode target (is_valid_target_language-pattern target d),
      checked_again source target c d,
    )
