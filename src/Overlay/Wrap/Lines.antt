-- ===== src/Overlay/Wrap/Lines.antt =====
-- wrapTextToWidth (backend/internal/services/overlay/draw.go): the runes on its lines, and their widths.
use lok_lingo.Prelude.{
  ℕ, zero, suc, ◌≤◌, ◌<◌, ◌≡◌, refl, inl, inr, Bool, true, false, List, [], ◌∷◌, ◌++◌, All,
  All-append, Option, none, some, Bool-cases, arith, ltb, leb, leb→le, length, if◌then◌else◌,
}
use lok_lingo.Go.Text.{Text, is_empty, flush}
use lok_lingo.Overlay.Script.{expand_cjk_tokens}
use lok_lingo.Overlay.Wrap.{
  strings_fields, no_lines, Wrapped, rebalance_wrapped_lines, with_piece, cut_word, flushed,
  separator, add_word, add_pieces, wrap_words, no_words_yet, wrap_tokens, wrap_lines,
  wrap_text_to_width, fit_word_to_width,
}
use lok_lingo.Overlay.Wrap.Fit.{fit_word_to_width-fits}
use lok_lingo.Overlay.Wrap.Spaces.{squeeze, ink}
use lok_lingo.Overlay.Wrap.Content.{Found, fit_word_to_width-IsSplitter, wrap_lines-ink}
use lok_lingo.Overlay.Wrap.Widths.{Allows, Found-Allows, IsNarrow, rebalance-AllNarrow}

module _ (measure : Text → ℕ) where
  module _ (split : Text → ℕ → Text × Text) (w : ℕ)
      (fitting : (word : Text) → IsNarrow measure w (split word w).0) where
    abbrev IsCut : List Text × Text → Type 0
    IsCut (pieces, rest) = All (IsNarrow measure w) pieces × (measure rest ≤ w)

    with_piece-IsCut :
        (head : Text) (o : Option (List Text × Text))
        → IsNarrow measure w head
        → Allows IsCut o
        → Allows IsCut (with_piece measure split head o)
    with_piece-IsCut head none h k = tt
    with_piece-IsCut head (some (hs, rest)) h (p, q) = ((h, p), q)

    cut_word-IsCut : (fuel : ℕ) (word : Text) → Allows IsCut (cut_word measure split w fuel word)
    unfolding cut_word
    cut_word-IsCut zero word = elim (Bool-cases (ltb w (measure word))) [
      | inl e ↦ rw (e, cut_word) tt
      | inr e ↦ rw (e, cut_word) (tt, ground (arith, e))
    ]
    cut_word-IsCut (suc fuel) word = elim (Bool-cases (ltb w (measure word))) [
      | inr e ↦ rw (e, cut_word) (tt, ground (arith, e))
      | inl e ↦
          rw (e, cut_word)
            (with_piece-IsCut (split word w).0 (cut_word measure split w fuel (split word w).1)
              (fitting word) (cut_word-IsCut fuel (split word w).1))
    ]

    -- The lines are narrow, and the line that is being filled fits.
    abbrev AreNarrow : Wrapped → Type 0
    AreNarrow s = All (IsNarrow measure w) s.lines × (measure s.current ≤ w)

    flushed-AllNarrow :
        (s : Wrapped) → AreNarrow s → All (IsNarrow measure w) (flushed measure split s).lines
    flushed-AllNarrow s (p, q) =
        All-append (IsNarrow measure w) s.lines (flush s.current) p (one s.current q)
      where
        one : (t : Text) → measure t ≤ w → All (IsNarrow measure w) (flush t)
        one [] q = tt
        one (c ∷ t) q = (inl q, tt)

    module _ (nothing : measure [] ≡ 0) where
      add_pieces-AreNarrow :
          (hs : List Text) (s : Wrapped)
          → All (IsNarrow measure w) hs
          → AreNarrow s
          → AreNarrow (add_pieces measure split hs s)
      add_pieces-AreNarrow [] s h k = k
      add_pieces-AreNarrow (x ∷ hs) s h k = (
        All-append (IsNarrow measure w) (flushed measure split s).lines (x ∷ hs)
            (flushed-AllNarrow s k) h,
        omega (arith, nothing),
      )

      add_word-AreNarrow :
          (word : Text) (s : Wrapped)
          → measure word ≤ w
          → AreNarrow s
          → AreNarrow (add_word measure split w word s)
      unfolding add_word
      add_word-AreNarrow word s h k =
          let candidate = s.current ++ (separator measure split s.current word ++ word) in
          AreNarrow-if (is_empty word) _ _ (λ _. k)
            (λ _.
              AreNarrow-if (is_empty s.current) _ _ (λ _. (k.0, h))
                (λ _.
                  AreNarrow-if (leb (measure candidate) w) _ _ (λ e. (k.0, leb→le _ _ e))
                    (λ _. (flushed-AllNarrow s k, h))))
        where
          AreNarrow-if :
              (b : Bool) (s t : Wrapped)
              → (b ≡ true → AreNarrow s)
              → (b ≡ false → AreNarrow t)
              → AreNarrow (if b then s else t)
          AreNarrow-if true s t p q = p refl
          AreNarrow-if false s t p q = q refl

      wrap_words-AreNarrow :
          (words : List Text) (s : Wrapped)
          → AreNarrow s
          → Allows AreNarrow (wrap_words measure split w words s)
      unfolding wrap_words
      wrap_words-AreNarrow [] s k = k
      wrap_words-AreNarrow (word ∷ words) s k =
          go (cut_word measure split w (length word) word) (cut_word-IsCut (length word) word)
            (λ t m. wrap_words-AreNarrow words t m)
        where
          go :
              (o : Option (List Text × Text))
              → Allows IsCut o
              → ((t : Wrapped)
                  → AreNarrow t
                  → Allows AreNarrow (wrap_words measure split w words t))
              → Allows AreNarrow (elim o as (λ _. Option Wrapped) [
                | none ↦ none
                | some (pieces, rest) ↦
                    wrap_words measure split w words
                      (add_word measure split w rest (add_pieces measure split pieces s))
              ])
          go none c others = tt
          go (some (pieces, rest)) (p, q) others =
              others _ (add_word-AreNarrow rest _ q (add_pieces-AreNarrow pieces s p k))

  wrap_tokens-AllNarrow :
      (split : Text → ℕ → Text × Text) (w : ℕ) (tokens : List Text)
      → measure [] ≡ 0
      → 0 < w
      → ((word : Text) → IsNarrow measure w (split word w).0)
      → Allows (All (IsNarrow measure w)) (wrap_tokens measure split w tokens)
  unfolding wrap_tokens
  wrap_tokens-AllNarrow split zero tokens nothing h fitting = absurd (omega (arith, h))
  wrap_tokens-AllNarrow split (suc w) tokens nothing h fitting =
      go (wrap_words measure split (suc w) tokens (no_words_yet measure split))
        (wrap_words-AreNarrow split (suc w) fitting nothing tokens _ (tt, omega (arith, nothing)))
    where
      go :
          (o : Option Wrapped)
          → Allows (AreNarrow split (suc w) fitting) o
          → Allows (All (IsNarrow measure (suc w))) (elim o as (λ _. Option (List Text)) [
            | none ↦ none
            | some s ↦
                some (rebalance_wrapped_lines measure (suc w) (flushed measure split s).lines)
          ])
      go none k = tt
      go (some s) k =
          rebalance-AllNarrow measure (suc w) _ (flushed-AllNarrow split (suc w) fitting s k)

  wrap_lines-AllNarrow :
      (split : Text → ℕ → Text × Text) (text : Text) (w : ℕ)
      → measure [] ≡ 0
      → 0 < w
      → ((word : Text) → IsNarrow measure w (split word w).0)
      → Allows (All (IsNarrow measure w)) (wrap_lines measure split text w)
  unfolding wrap_lines
  wrap_lines-AllNarrow split text w nothing h fitting =
      elim (Bool-cases (no_lines (strings_fields text))) [
        | inl e ↦ rw (e, wrap_lines) tt
        | inr e ↦
            rw (e, wrap_lines)
              (wrap_tokens-AllNarrow split w (expand_cjk_tokens (strings_fields text)) nothing h
                fitting)
      ]

-- For a font in which no text has no width, and a positive width, wrapTextToWidth returns lines that
-- hold the runes of the text that are not blank, all of them, each once and in order, and each line fits
-- the width or is a single rune.
pub wrap_text_to_width-IsWrapped :
    (measure : Text → ℕ) (text : Text) (max_width : ℕ)
    → measure [] ≡ 0
    → 0 < max_width
    → Found
        (λ ls. (ink ls ≡ squeeze text) × All (IsNarrow measure max_width) ls)
        (wrap_text_to_width measure text max_width)
wrap_text_to_width-IsWrapped measure text w nothing h =
    Found-Allows _ _ (wrap_text_to_width measure text w)
      (wrap_lines-ink measure (fit_word_to_width measure)
        (fit_word_to_width-IsSplitter measure nothing) text w)
      (wrap_lines-AllNarrow measure (fit_word_to_width measure) text w nothing h
        (λ word. fit_word_to_width-fits measure word w))
