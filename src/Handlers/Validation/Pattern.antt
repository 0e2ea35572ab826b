-- ===== src/Handlers/Validation/Pattern.antt =====
-- The pattern of language codes, and what it accepts (backend/handlers/validation.go).
use mathlib.Core.Path.{subst}
use lok_lingo.Prelude.{
  ℕ, ◌≤◌, ◌≡◌, refl, ◌∙◌, ap, sym, ◌⊎◌, ◌↔◌, inl, inr, Bool, true, false, ◌&&◌, ◌||◌, [], ◌∷◌, ◌==◌,
  length, arith,
}
use lok_lingo.Go.Text.{Text, is_space, trim_left, trim_right, trim_space, lower_char, to_lower}
use lok_lingo.Handlers.Validation.{
  is_letter, is_alphanumeric, all_alphanumeric, matches_region, matches_third,
  language_code_pattern, normalize_lang_code,
}

-- The characters of a language code.
abbrev is_plain : ℕ → Bool
is_plain c = is_alphanumeric c || (c == b'-')

unfoldable pub all_plain : Text → Bool
all_plain [] = true
all_plain (c ∷ s) = is_plain c && all_plain s

plain-is_space : (c : ℕ) → is_plain c ≡ true → is_space c ≡ false
unfolding is_space
plain-is_space c h = ground (arith, h)

plain-lower_char : (c : ℕ) → is_plain c ≡ true → lower_char c ≡ c
unfolding lower_char
plain-lower_char c h = ground (arith, h)

pub both : (a b : Bool) → (a && b) ≡ true → (a ≡ true) × (b ≡ true)
both true b h = (refl, h)
both false b h = absurd cc

either : (a b : Bool) → (a || b) ≡ true → (a ≡ true) ⊎ (b ≡ true)
either true b h = inl refl
either false b h = inr h

all_plain-to_lower : (s : Text) → all_plain s ≡ true → to_lower s ≡ s
unfolding all_plain to_lower
all_plain-to_lower [] h = refl
all_plain-to_lower (c ∷ s) h =
    let (p, q) = both (is_plain c) (all_plain s) h in
    rw (plain-lower_char c p, all_plain-to_lower s q) refl

all_plain-trim_right : (s : Text) → all_plain s ≡ true → trim_right s ≡ s
unfolding all_plain trim_right
all_plain-trim_right [] h = refl
all_plain-trim_right (c ∷ s) h =
    let (p, q) = both (is_plain c) (all_plain s) h in
    rw (plain-is_space c p, all_plain-trim_right s q) refl

all_plain-trim_left : (s : Text) → all_plain s ≡ true → trim_left s ≡ s
unfolding all_plain trim_left
all_plain-trim_left [] h = refl
all_plain-trim_left (c ∷ s) h =
    let (p, q) = both (is_plain c) (all_plain s) h in rw (plain-is_space c p, trim_left) refl

pub all_plain-normalize_lang_code : (s : Text) → all_plain s ≡ true → normalize_lang_code s ≡ s
unfolding normalize_lang_code trim_space
all_plain-normalize_lang_code s h =
    ap (λ t. to_lower (trim_right t)) (all_plain-trim_left s h)
    ∙ ap to_lower (all_plain-trim_right s h)
    ∙ all_plain-to_lower s h

all_alphanumeric-all_plain : (s : Text) → all_alphanumeric s ≡ true → all_plain s ≡ true
unfolding all_alphanumeric all_plain
all_alphanumeric-all_plain [] h = refl
all_alphanumeric-all_plain (c ∷ s) h =
    let (p, q) = both (is_alphanumeric c) (all_alphanumeric s) h in
    rw (p, all_alphanumeric-all_plain s q) refl

-- A region: a dash and two to eight letters and digits.
pub data IsRegion : Text → Type 0 where
  region :
      (r : Text) → all_alphanumeric r ≡ true → 2 ≤ length r → length r ≤ 8 → IsRegion (b'-' ∷ r)

-- Two or three letters, with a region or without.
pub data IsLanguageCode : Text → Type 0 where
  two :
      (a b : ℕ) (s : Text)
      → is_letter a ≡ true
      → is_letter b ≡ true
      → (s ≡ []) ⊎ IsRegion s
      → IsLanguageCode (a ∷ b ∷ s)
  three :
      (a b c : ℕ) (s : Text)
      → is_letter a ≡ true
      → is_letter b ≡ true
      → is_letter c ≡ true
      → (s ≡ []) ⊎ IsRegion s
      → IsLanguageCode (a ∷ b ∷ c ∷ s)

matches_region-parts :
    (c : ℕ) (s : Text)
    → matches_region (c ∷ s) ≡ true
    → (c ≡ b'-') × (2 ≤ length s) × (length s ≤ 8) × (all_alphanumeric s ≡ true)
unfolding matches_region
matches_region-parts c s h = ground (arith, h)

matches_region-IsRegion : (s : Text) → matches_region s ≡ true → (s ≡ []) ⊎ IsRegion s
matches_region-IsRegion [] h = inl refl
matches_region-IsRegion (c ∷ s) h =
    let (dash, low, high, plain) = matches_region-parts c s h in
    inr (subst (λ d. IsRegion (d ∷ s)) (sym dash) (region s plain low high))

matches_region-all_plain : (s : Text) → matches_region s ≡ true → all_plain s ≡ true
unfolding all_plain
matches_region-all_plain [] h = refl
matches_region-all_plain (c ∷ s) h =
    let (dash, low, high, plain) = matches_region-parts c s h in
    let rest = all_alphanumeric-all_plain s plain in ground (arith, dash, rest)

matches_third-parts :
    (c : ℕ) (s : Text)
    → matches_third (c ∷ s) ≡ true
    → (matches_region (c ∷ s) ≡ true) ⊎ ((is_letter c ≡ true) × (matches_region s ≡ true))
unfolding matches_third
matches_third-parts c s h =
    elim (either (matches_region (c ∷ s)) (is_letter c && matches_region s) h) [
      | inl e ↦ inl e
      | inr e ↦ inr (both (is_letter c) (matches_region s) e)
    ]

language_code_pattern-parts :
    (a b : ℕ) (s : Text)
    → language_code_pattern (a ∷ b ∷ s) ≡ true
    → (is_letter a ≡ true) × (is_letter b ≡ true) × (matches_third s ≡ true)
unfolding language_code_pattern
language_code_pattern-parts a b s h = ground (arith, h)

-- The pattern accepts only codes.
pub language_code_pattern-IsLanguageCode :
    (v : Text) → language_code_pattern v ≡ true → IsLanguageCode v
unfolding language_code_pattern
language_code_pattern-IsLanguageCode [] h = absurd cc
language_code_pattern-IsLanguageCode (a ∷ []) h = absurd cc
language_code_pattern-IsLanguageCode (a ∷ b ∷ []) h =
    let (p, q, r) = language_code_pattern-parts a b [] h in two a b [] p q (inl refl)
language_code_pattern-IsLanguageCode (a ∷ b ∷ c ∷ s) h =
    let (p, q, r) = language_code_pattern-parts a b (c ∷ s) h in
    elim (matches_third-parts c s r) [
      | inl e ↦ two a b (c ∷ s) p q (matches_region-IsRegion (c ∷ s) e)
      | inr (l, e) ↦ three a b c s p q l (matches_region-IsRegion s e)
    ]

matches_third-all_plain : (s : Text) → matches_third s ≡ true → all_plain s ≡ true
unfolding all_plain
matches_third-all_plain [] h = refl
matches_third-all_plain (c ∷ s) h = elim (matches_third-parts c s h) [
  | inl e ↦ matches_region-all_plain (c ∷ s) e
  | inr (l, e) ↦ let rest = matches_region-all_plain s e in ground (arith, l, rest)
]

pub language_code_pattern-all_plain :
    (v : Text) → language_code_pattern v ≡ true → all_plain v ≡ true
unfolding language_code_pattern all_plain
language_code_pattern-all_plain [] h = refl
language_code_pattern-all_plain (a ∷ []) h = absurd cc
language_code_pattern-all_plain (a ∷ b ∷ s) h =
    let (p, q, r) = language_code_pattern-parts a b s h in
    let rest = matches_third-all_plain s r in ground (arith, p, q, rest)

IsRegion-matches_region : (s : Text) → (s ≡ []) ⊎ IsRegion s → matches_region s ≡ true
unfolding matches_region
IsRegion-matches_region s (inl e) = rw (e) refl
IsRegion-matches_region _ (inr (region r plain low high)) = ground (arith, plain, low, high)

IsRegion-matches_third : (s : Text) → (s ≡ []) ⊎ IsRegion s → matches_third s ≡ true
unfolding matches_third
IsRegion-matches_third [] h = refl
IsRegion-matches_third (c ∷ s) h = rw (IsRegion-matches_region (c ∷ s) h) refl

IsLanguageCode-matches : (v : Text) → IsLanguageCode v → language_code_pattern v ≡ true
unfolding language_code_pattern matches_third
IsLanguageCode-matches _ (two a b s p q h) = rw (p, q) (IsRegion-matches_third s h)
IsLanguageCode-matches _ (three a b c s p q l h) =
    let e = IsRegion-matches_region s h in ground (arith, p, q, l, e)

-- The pattern of language codes matches exactly the texts of two or three letters from a to z, with a dash and
-- two to eight such letters and digits behind them or without.
pub language_code_pattern_iff : (v : Text) → (language_code_pattern v ≡ true) ↔ IsLanguageCode v
language_code_pattern_iff v = (language_code_pattern-IsLanguageCode v, IsLanguageCode-matches v)
