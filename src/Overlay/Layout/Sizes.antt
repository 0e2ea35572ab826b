-- ===== src/Overlay/Layout/Sizes.antt =====
-- The size that fitTextLayout chooses (backend/internal/services/overlay/draw.go).
use mathlib.Core.Path.{subst}
use lok_lingo.Prelude.{
  ℕ, [], ◌∷◌, zero, suc, ◌+◌, ◌≤◌, ◌<◌, ◌≡◌, refl, sym, ap, ◌∙◌, ◌⊎◌, inl, inr, Bool, true, false,
  ◌&&◌, List, Option, none, some, ltb, ◌==◌, Bool-cases, Option-cases, arith, if◌then◌else◌, length,
  ltb→lt, leb→le,
}
use lok_lingo.Go.Text.{Text}
use lok_lingo.Overlay.Wrap.{no_lines}
use lok_lingo.Overlay.Wrap.Content.{Found, Found-map}
use lok_lingo.Overlay.Layout.{
  Typeface, TextLayout, layout_of, lines_at, fits_at, enlarge, try_sizes, block_height,
}

and_right : (a b : Bool) → (a && b) ≡ true → b ≡ true
and_right true b e = e
and_right false b e = absurd (cc)

Found-if :
    {A : Type 0} (P : A → Type 0) (b : Bool) (x y : A)
    → (b ≡ true → P x)
    → (b ≡ false → P y)
    → Found P (if b then some x else some y)
Found-if P true x y h k = h refl
Found-if P false x y h k = k refl

-- The lines are the first ones of the others, except that the last of them may be another.
abbrev pub AreFirst : List Text → List Text → Type 0
AreFirst [] others = Unit
AreFirst (l ∷ ls) [] = ⊥
AreFirst (l ∷ []) (o ∷ os) = Unit
AreFirst (l ∷ k ∷ ls) (o ∷ os) = (l ≡ o) × AreFirst (k ∷ ls) os

module _ (f : Typeface) (text : Text) (max_width max_height : ℕ) where
  abbrev pub lines_of : ℕ → Option (List Text)
  lines_of = lines_at f text max_width max_height

  abbrev pub fits : ℕ → List Text → Bool
  fits = fits_at f text max_width max_height

  -- The lines of a size do not fit: their block is higher than what is tolerated.
  abbrev pub IsTooLarge : ℕ → Type 0
  IsTooLarge k =
      (ls : List Text)
      → lines_of k ≡ some ls
      → no_lines ls ≡ false
      → f.tolerated_height max_height < block_height f k (length ls)

  -- The lines are those of the size, and they fit; or the size is the smallest, and there is one line, or
  -- they fit; there the lines may be the first ones, with another last line. They fit if their block is not higher than what is tolerated.
  abbrev pub IsFitted : ℕ → TextLayout → Type 0
  IsFitted low l =
      ((lines_of l.font_size ≡ some l.lines)
        × (block_height f l.font_size (length l.lines) ≤ f.tolerated_height max_height))
      ⊎ ((l.font_size ≡ low)
          × ((length l.lines ≤ 1)
              ⊎ (block_height f low (length l.lines) ≤ f.tolerated_height max_height)))

  within :
      (size : ℕ) (ls : List Text)
      → fits size ls ≡ true
      → block_height f size (length ls) ≤ f.tolerated_height max_height
  within size ls h = leb→le _ _ h

  module _ (low high : ℕ) where
    -- A layout of a size from one on, which fits.
    abbrev pub IsFrom : ℕ → TextLayout → Type 0
    IsFrom size l = (size ≤ l.font_size) × (l.font_size ≤ high) × IsFitted low l

    enlarge-IsFrom :
        (size : ℕ) (lines : List Text)
        → size ≤ high
        → lines_of size ≡ some lines
        → fits size lines ≡ true
        → Found (λ (ls : List Text). Unit {0}) (lines_of (size + 1))
        → Found (IsFrom size) (enlarge f text max_width max_height high size lines)
    unfolding enlarge
    enlarge-IsFrom size lines h e k t = elim (Bool-cases (ltb size high)) [
      | inr g ↦ rw (g, enlarge) (omega arith, h, inl (e, within size lines k))
      | inl g ↦ rw (g, enlarge) (larger (ltb→lt size high g) (lines_of (size + 1)) refl t)
    ]
      where
        larger :
            size < high
            → (o : Option (List Text)) → lines_of (size + 1) ≡ o
            → Found (λ (ls : List Text). Unit {0}) o
            → Found (IsFrom size) (elim o as (λ _. Option TextLayout) [
              | none ↦ none
              | some larger ↦
                  if length larger == length lines && fits (size + 1) larger
                  then some (layout_of f (size + 1) larger)
                  else some (layout_of f size lines)
            ])
        larger g none p t = t
        larger g (some ls) p t =
            Found-if (IsFrom size) (length ls == length lines && fits (size + 1) ls) _ _
              (λ m.
                (omega arith, omega (arith, g), inl (p, within (size + 1) ls (and_right _ _ m))))
              (λ m. (omega arith, h, inl (e, within size lines k)))

    -- What the sizes that were tried leave: a layout, above which nothing fits, or nothing fits.
    abbrev pub AreTried : ℕ → Option TextLayout → Type 0
    AreTried n none = (k : ℕ) → low ≤ k → k < low + n → IsTooLarge k
    AreTried n (some l) = IsFrom low l × ((k : ℕ) → l.font_size < k → k < low + n → IsTooLarge k)

    below : (j n : ℕ) → j < low + suc n → (j < low + n) ⊎ (j ≡ low + n)
    below j n q = elim (Bool-cases (ltb j (low + n))) [
      | inl e ↦ inl (ltb→lt _ _ e)
      | inr e ↦ inr (ground (arith, e, q))
    ]

    -- A size that does not fit leaves what the smaller ones leave.
    skipped :
        (n : ℕ) (o : Option TextLayout) → IsTooLarge (low + n) → AreTried n o → AreTried (suc n) o
    skipped n none h k =
        λ j p q. elim (below j n q) [ inl r ↦ k j p r | inr r ↦ subst IsTooLarge (sym r) h ]
    skipped n (some l) h (k, m) =
        (k, λ j p q. elim (below j n q) [ inl r ↦ m j p r | inr r ↦ subst IsTooLarge (sym r) h ])

    module _ (total : (size : ℕ) → Found (λ (ls : List Text). Unit {0}) (lines_of size)) where
      pub try_sizes-AreTried :
          (n : ℕ)
          → (0 < n → low + n ≤ high + 1)
          → Found (AreTried n) (try_sizes f text max_width max_height low high n)
      unfolding try_sizes
      try_sizes-AreTried zero h = λ k p q. absurd (omega (arith, p, q))
      try_sizes-AreTried (suc n) h =
          let size = low + n in
          let rest = try_sizes-AreTried n (λ p. omega (arith, h (omega arith))) in
          elim (Option-cases (lines_of size)) [
            | inl e ↦ absurd (subst (Found (λ (ls : List Text). Unit {0})) e (total size))
            | inr (lines, e) ↦ elim (Bool-cases (no_lines lines)) [
              | inl g ↦
                  rw (e, try_sizes)
                    (rw g (
                      Found-map (AreTried n) (AreTried (suc n))
                        (try_sizes f text max_width max_height low high n) rest
                        (λ o k. skipped n o (no_lines_there size lines e g) k)))
              | inr g ↦ elim (Bool-cases (fits size lines)) [
                | inr m ↦
                    rw (e, try_sizes)
                      (rw g (
                        rw m (
                          Found-map (AreTried n) (AreTried (suc n))
                            (try_sizes f text max_width max_height low high n) rest
                            (λ o k. skipped n o (do_not_fit size lines e m) k))))
                | inl m ↦
                    rw (e, try_sizes)
                      (rw g (
                        rw m (
                          taken n (enlarge f text max_width max_height high size lines) (
                            enlarge-IsFrom size lines (omega (arith, h (omega arith))) e m
                              (total (size + 1))))))
              ]
            ]
          ]
        where
          no_lines_there :
              (size : ℕ) (lines : List Text)
              → lines_of size ≡ some lines
              → no_lines lines ≡ true
              → IsTooLarge size
          no_lines_there size lines e g = λ ls q r. absurd (cc)

          do_not_fit :
              (size : ℕ) (lines : List Text)
              → lines_of size ≡ some lines
              → fits size lines ≡ false
              → IsTooLarge size
          do_not_fit size lines e m = λ ls q r.
              let same : fits size lines ≡ fits size ls =
                ap (fits size) (same_some lines ls (sym e ∙ q)) in
              ground (arith, sym same ∙ m)
            where
              same_some : (a b : List Text) → ◌≡◌ {A = Option (List Text)} (some a) (some b) → a ≡ b
              same_some a b e = cc

          taken :
              (n : ℕ) (o : Option TextLayout)
              → Found (IsFrom (low + n)) o
              → Found (AreTried (suc n)) (elim o as (λ _. Option (Option TextLayout)) [
                | none ↦ none
                | some l ↦ some (some l)
              ])
          taken n none k = k
          taken n (some l) (a, b, c) =
              ((omega (arith, a), b, c), λ j p q. absurd (omega (arith, a, p, q)))
