-- ===== src/Overlay/Layout/Total.antt =====
-- fitTextLayout ends, whatever the sizes (backend/internal/services/overlay/draw.go).
use mathlib.Core.Path.{subst}
use lok_lingo.Prelude.{
  ℕ, zero, suc, ◌+◌, ◌-◌, ◌≡◌, inl, inr, Bool, true, false, ◌&&◌, ◌||◌, List, Option, none, some,
  ltb, ◌==◌, Option-cases, if◌then◌else◌, length,
}
use lok_lingo.Go.Text.{Text, is_empty}
use lok_lingo.Overlay.Wrap.{strings_trim_space, no_lines}
use lok_lingo.Overlay.Wrap.Spaces.{ink, squeeze}
use lok_lingo.Overlay.Wrap.Content.{Found, IsSplitter, wrap_lines-ink}
use lok_lingo.Overlay.Layout.{
  Typeface, TextLayout, lines_at, fits_at, no_layout, layout_of, enlarge, try_sizes, smallest,
  start_size, fit_sizes, fit_text_layout,
}

-- There is an answer.
abbrev pub IsFound {ℓ} : {A : Type ℓ} → Option A → Type 0
IsFound none = ⊥
IsFound (some a) = Unit

IsFound-none {ℓ} : {A : Type ℓ} (o : Option A) → IsFound o → o ≡ none → ⊥
IsFound-none o h e = subst IsFound e h

module _ (f : Typeface) (text : Text) (max_width max_height : ℕ)
    (splits : (size : ℕ) → IsSplitter (f.measure size) (f.split size)) where
  lines_at-IsFound : (size : ℕ) → IsFound (lines_at f text max_width max_height size)
  lines_at-IsFound size =
      found (lines_at f text max_width max_height size)
        (wrap_lines-ink (f.measure size) (f.split size) (splits size) text max_width)
    where
      found : (o : Option (List Text)) → Found (λ ls. ink ls ≡ squeeze text) o → IsFound o
      found none k = k
      found (some ls) k = tt

  IsFound-if :
      {A : Type 0} (b : Bool) (x y : Option A)
      → IsFound x
      → IsFound y
      → IsFound (if b then x else y)
  IsFound-if true x y h k = h
  IsFound-if false x y h k = k

  enlarge-IsFound :
      (high size : ℕ) (lines : List Text)
      → IsFound (enlarge f text max_width max_height high size lines)
  unfolding enlarge
  enlarge-IsFound high size lines =
      elim (Option-cases (lines_at f text max_width max_height (size + 1))) [
        | inl e ↦ absurd (IsFound-none _ (lines_at-IsFound (size + 1)) e)
        | inr (ls, e) ↦
            rw (e, enlarge)
              (IsFound-if (ltb size high) _ _
                (IsFound-if
                  (length ls == length lines && fits_at f text max_width max_height (size + 1) ls)
                  (some (layout_of f (size + 1) ls)) (some (layout_of f size lines)) tt tt)
                tt)
      ]

  try_sizes-IsFound : (low high n : ℕ) → IsFound (try_sizes f text max_width max_height low high n)
  unfolding try_sizes
  try_sizes-IsFound low high zero = tt
  try_sizes-IsFound low high (suc n) =
      let rest = try_sizes-IsFound low high n in
      elim (Option-cases (lines_at f text max_width max_height (low + n))) [
        | inl e ↦ absurd (IsFound-none _ (lines_at-IsFound (low + n)) e)
        | inr (ls, e) ↦
            rw (e, try_sizes)
              (IsFound-if (no_lines ls) _ _ rest (
                IsFound-if (fits_at f text max_width max_height (low + n) ls) _ _
                  (kept (enlarge f text max_width max_height high (low + n) ls)
                    (enlarge-IsFound high (low + n) ls))
                  rest))
      ]
    where
      kept :
          (o : Option TextLayout)
          → IsFound o
          → IsFound
              (elim o as (λ _. Option (Option TextLayout)) [ none ↦ none | some l ↦ some (some l) ])
      kept none h = h
      kept (some l) h = tt

  fit_sizes-IsFound : (low high : ℕ) → IsFound (fit_sizes f text max_width max_height low high)
  unfolding fit_sizes smallest
  fit_sizes-IsFound low high =
      let n = start_size f text max_width max_height low high + 1 - low in
      chosen (try_sizes f text max_width max_height low high n) (try_sizes-IsFound low high n)
    where
      smallest-IsFound : IsFound (smallest f text max_width max_height low)
      smallest-IsFound = elim (Option-cases (lines_at f text max_width max_height low)) [
        | inl e ↦ absurd (IsFound-none _ (lines_at-IsFound low) e)
        | inr (ls, e) ↦ rw (e, smallest) tt
      ]

      chosen :
          (o : Option (Option TextLayout))
          → IsFound o
          → IsFound (elim o as (λ _. Option TextLayout) [
            | none ↦ none
            | some found ↦ elim found as (λ _. Option TextLayout) [
              | some l ↦ some l
              | none ↦ smallest f text max_width max_height low
            ]
          ])
      chosen none h = h
      chosen (some none) h = smallest-IsFound
      chosen (some (some l)) h = tt

  pub fit_text_layout-IsFound :
      (low high : ℕ) → IsFound (fit_text_layout f text max_width max_height low high)
  unfolding fit_text_layout
  fit_text_layout-IsFound low high =
      IsFound-if (is_empty (strings_trim_space text) || max_width == 0 || max_height == 0)
        (some no_layout) _ tt (fit_sizes-IsFound low high)
