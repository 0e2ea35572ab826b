-- ===== src/Overlay/Wrap/Widths.antt =====
-- The lines of wrapLines are no wider than they may be (backend/internal/services/overlay/draw.go).
use mathlib.Core.Path.{subst}
use lok_lingo.Prelude.{
  ℕ, zero, suc, ◌≤◌, ◌≡◌, refl, ap, ◌∙◌, ◌⊎◌, inl, inr, Bool, true, false, ◌&&◌, ◌||◌, not, List,
  [], ◌∷◌, ◌++◌, All, All-append, Option, none, some, Bool-cases, Option-cases, arith, ltb, length,
  if◌then◌else◌,
}
use lok_lingo.Go.Equal.{text_eq_refl}
use lok_lingo.Go.Text.{Text, text_eq, is_empty}
use lok_lingo.Overlay.Wrap.{
  strings_fields, strings_trim_space, last_two, Balance, moved, try_moved, balanced, is_short,
  rebalance_last, rebalance_wrapped_lines,
}
use lok_lingo.Overlay.Wrap.Rebalance.{last_two-lines}
use lok_lingo.Overlay.Wrap.Content.{Found}

-- If there is an answer, it has the property.
abbrev pub Allows {ℓ} : {A : Type ℓ} → (A → Type 0) → Option A → Type 0
Allows P none = Unit
Allows P (some a) = P a

pub Found-Allows {ℓ} :
    {A : Type ℓ} (P Q : A → Type 0) (o : Option A)
    → Found P o
    → Allows Q o
    → Found (λ a. P a × Q a) o
Found-Allows P Q none h k = h
Found-Allows P Q (some a) h k = (h, k)

All-left {ℓ} : {A : Type ℓ} (P : A → Type 0) (xs ys : List A) → All P (xs ++ ys) → All P xs
All-left P [] ys h = tt
All-left P (x ∷ xs) ys h = (h.0, All-left P xs ys h.1)

module _ (measure : Text → ℕ) (w : ℕ) where
  -- The line fits, or it is one rune.
  abbrev pub IsNarrow : Text → Type 0
  IsNarrow l = (measure l ≤ w) ⊎ (length l ≤ 1)

  -- The lines as they are, or two that fit.
  abbrev IsBalance : Text → Text → Balance → Type 0
  IsBalance prev last b =
      ((b.best_prev ≡ prev) × (b.best_last ≡ last))
      ⊎ ((measure b.best_prev ≤ w) × (measure b.best_last ≤ w))

  try_moved-IsBalance :
      (n : ℕ) (words : List Text) (prev last : Text) (best : Balance)
      → IsBalance prev last best
      → IsBalance prev last (try_moved measure w n words last best)
  unfolding try_moved
  try_moved-IsBalance n words prev last best h =
      let b = moved measure n words last in
      elim (Bool-cases (ltb n (length words))) [
        | inr e ↦ rw (e, try_moved) h
        | inl e ↦ elim (Bool-cases (ltb w (measure b.best_prev) || ltb w (measure b.best_last))) [
          | inl f ↦ rw (e, try_moved) (rw f h)
          | inr f ↦ elim (Bool-cases (ltb b.best_delta best.best_delta)) [
            | inr g ↦ rw (e, try_moved) (rw f (rw g h))
            | inl g ↦ rw (e, try_moved) (rw f (rw g (inr (ground (arith, f), ground (arith, f)))))
          ]
        ]
      ]

  All-if :
      (b : Bool) (xs ys : List Text)
      → All IsNarrow xs
      → (b ≡ false → All IsNarrow ys)
      → All IsNarrow (if b then xs else ys)
  All-if true xs ys h k = h
  All-if false xs ys h k = k refl

  rebalance_last-AllNarrow :
      (lines before : List Text) (l m : Text)
      → lines ≡ before ++ l ∷ m ∷ []
      → All IsNarrow lines
      → All IsNarrow (rebalance_last measure w lines (before, l, m))
  unfolding rebalance_last
  rebalance_last-AllNarrow lines before l m e h =
      let prev = strings_trim_space l in
      let last = strings_trim_space m in
      let b = balanced measure w prev last in
      let words = strings_fields prev in
      All-if _ lines (before ++ b.best_prev ∷ b.best_last ∷ []) h (λ f.
        two_narrow before l m b (subst (All IsNarrow) e h) (
          fits prev last b
            (try_moved-IsBalance 2 words prev last _
              (try_moved-IsBalance 1 words prev last _ (inl (refl, refl))))
            (last_of (is_empty prev) (is_empty last) (not (is_short measure w last))
              (ltb (length words) 2) _ f)))
    where
      last_of : (a b c d g : Bool) → (a || b || c || d || g) ≡ false → g ≡ false
      last_of a b c d g f = ground (arith, f)

      fits :
          (prev last : Text) (b : Balance)
          → IsBalance prev last b
          → (text_eq b.best_prev prev && text_eq b.best_last last) ≡ false
          → (measure b.best_prev ≤ w) × (measure b.best_last ≤ w)
      fits prev last b (inr k) f = k
      fits prev last b (inl (p, q)) f = absurd (
          ground (
            arith,
            f,
            ap (λ t. text_eq t prev) p ∙ text_eq_refl prev,
            ap (λ t. text_eq t last) q ∙ text_eq_refl last,
          ))

      two_narrow :
          (before : List Text) (l m : Text) (b : Balance)
          → All IsNarrow (before ++ l ∷ m ∷ [])
          → (measure b.best_prev ≤ w) × (measure b.best_last ≤ w)
          → All IsNarrow (before ++ b.best_prev ∷ b.best_last ∷ [])
      two_narrow before l m b h (p, q) =
          All-append IsNarrow before _ (All-left IsNarrow before _ h) (inl p, (inl q, tt))

module _ (measure : Text → ℕ) where
  pub rebalance-AllNarrow :
      (w : ℕ) (lines : List Text)
      → All (IsNarrow measure w) lines
      → All (IsNarrow measure w) (rebalance_wrapped_lines measure w lines)
  unfolding rebalance_wrapped_lines
  rebalance-AllNarrow zero lines h = h
  rebalance-AllNarrow (suc w) lines h = elim (Option-cases (last_two lines)) [
    | inl e ↦ rw (e, rebalance_wrapped_lines) h
    | inr ((before, l, m), e) ↦
        rw (e, rebalance_wrapped_lines)
          (rebalance_last-AllNarrow measure (suc w) lines before l m
            (last_two-lines lines before l m e) h)
  ]
