-- ===== src/Overlay/Wrap/Content.antt =====
-- wrapLines ends, and keeps every rune of a text that is not blank, in order
-- (backend/internal/services/overlay/draw.go).
use mathlib.Core.List.{append-nil, append_assoc}
use lok_lingo.Prelude.{
  ℕ, zero, suc, ◌≤◌, ◌<◌, ◌≡◌, refl, sym, ap, ◌∙◌, inl, inr, Bool, true, false, ◌||◌, List, [], ◌∷◌,
  ◌++◌, Option, none, some, Bool-cases, concat, arith, ltb, leb, ltb→lt, length, if◌then◌else◌,
}
use lok_lingo.Go.Text.{Text, is_empty, join, flush}
use lok_lingo.Overlay.Script.{expand_cjk_tokens, is_all_cjk, is_cjk_last_rune}
use lok_lingo.Overlay.Wrap.{
  strings_fields, one_space, no_lines, Wrapped, rebalance_wrapped_lines, with_piece, cut_word,
  flushed, separator, add_word, add_pieces, wrap_words, no_words_yet, wrap_tokens, wrap_lines,
  fit_word_to_width, is_blank,
}
use lok_lingo.Overlay.Wrap.Fit.{fit_word_to_width-append, fit_word_to_width-shorter}
use lok_lingo.Overlay.Wrap.Spaces.{
  squeeze, ink, squeeze-append, squeeze-empty, ink-append, ink-flush, ink-fields, squeeze-join,
  concat-expand_cjk_tokens,
}
use lok_lingo.Overlay.Wrap.Rebalance.{rebalance_wrapped_lines-ink}

-- There is an answer, and it has the property.
abbrev pub Found {ℓ} : {A : Type ℓ} → (A → Type 0) → Option A → Type 0
Found P none = ⊥
Found P (some a) = P a

pub Found-map {ℓ} :
    {A : Type ℓ} (P Q : A → Type 0) (o : Option A) → Found P o → ((a : A) → P a → Q a) → Found Q o
Found-map P Q none h k = h
Found-map P Q (some a) h k = k a h

-- What wrapLines relies on: nothing is too wide to be no text, and a split loses nothing and cuts
-- something off.
pub record IsSplitter (measure : Text → ℕ) (split : Text → ℕ → Text × Text) : Type 0 where
  pub nothing : measure [] ≡ 0
  pub whole : (word : Text) (n : ℕ) → (split word n).0 ++ (split word n).1 ≡ word
  pub shorter : (word : Text) (n : ℕ) → 0 < length word → length (split word n).1 < length word

pub fit_word_to_width-IsSplitter :
    (measure : Text → ℕ) → measure [] ≡ 0 → IsSplitter measure (fit_word_to_width measure)
fit_word_to_width-IsSplitter measure h = record {
  nothing = h;
  whole = fit_word_to_width-append measure;
  shorter = fit_word_to_width-shorter measure;
}

module _ (measure : Text → ℕ) (split : Text → ℕ → Text × Text) (ok : IsSplitter measure split) where
  some_rune : (w : ℕ) (word : Text) → ltb w (measure word) ≡ true → 0 < length word
  some_rune w [] e = absurd (omega (arith, ltb→lt w (measure []) e, ok.nothing))
  some_rune w (c ∷ word) e = omega arith

  not_below_zero : (w : ℕ) → ltb w 0 ≡ false
  not_below_zero w = ground arith

  -- Cutting a word ends: the pieces and what is left are the word.
  cut_word-Found :
      (w fuel : ℕ) (word : Text)
      → length word ≤ fuel
      → Found (λ t. concat t.0 ++ t.1 ≡ word) (cut_word measure split w fuel word)
  unfolding cut_word
  cut_word-Found w zero [] h = rw (ok.nothing, cut_word) (rw (not_below_zero w) refl)
  cut_word-Found w zero (c ∷ word) h = absurd (omega (arith, h))
  cut_word-Found w (suc fuel) word h = elim (Bool-cases (ltb w (measure word))) [
    | inr e ↦ rw (e, cut_word) refl
    | inl e ↦
        rw (e, cut_word)
          (let (head, tail) = split word w in
            with_piece-found word head tail (ok.whole word w) (cut_word measure split w fuel tail)
              (cut_word-Found w fuel tail (omega (arith, ok.shorter word w (some_rune w word e)))))
  ]
    where
      with_piece-found :
          (word head tail : Text)
          → head ++ tail ≡ word
          → (o : Option (List Text × Text)) → Found (λ t. concat t.0 ++ t.1 ≡ tail) o
          → Found (λ t. concat t.0 ++ t.1 ≡ word) (with_piece measure split head o)
      with_piece-found word head tail e none k = k
      with_piece-found word head tail e (some (hs, rest)) k =
          append_assoc head (concat hs) rest ∙ ap (λ r. head ++ r) k ∙ e

  -- The runes on the lines and on the line that is being filled.
  abbrev content : Wrapped → Text
  content s = ink s.lines ++ squeeze s.current

  flushed-ink : (s : Wrapped) → ink (flushed measure split s).lines ≡ content s
  flushed-ink s =
      ink-append s.lines (flush s.current) ∙ ap (λ r. ink s.lines ++ r) (ink-flush s.current)

  add_pieces-content :
      (hs : List Text) (s : Wrapped) → content (add_pieces measure split hs s) ≡ content s ++ ink hs
  unfolding squeeze
  add_pieces-content [] s = sym (append-nil (content s))
  add_pieces-content (h ∷ hs) s =
      append-nil (ink ((flushed measure split s).lines ++ h ∷ hs))
      ∙ ink-append (flushed measure split s).lines (h ∷ hs)
      ∙ ap (λ r. r ++ ink (h ∷ hs)) (flushed-ink s)

  separator-blank : (a b : Text) → squeeze (separator measure split a b) ≡ []
  unfolding squeeze is_blank
  separator-blank a b = elim (Bool-cases (is_all_cjk b || is_cjk_last_rune a)) [
    | inl e ↦ rw e refl
    | inr e ↦ rw e refl
  ]

  content-if :
      (b : Bool) (s t : Wrapped) (r : Text)
      → (b ≡ true → content s ≡ r)
      → (b ≡ false → content t ≡ r)
      → content (if b then s else t) ≡ r
  content-if true s t r h k = h refl
  content-if false s t r h k = k refl

  add_word-content :
      (w : ℕ) (word : Text) (s : Wrapped)
      → content (add_word measure split w word s) ≡ content s ++ squeeze word
  unfolding add_word
  add_word-content w word s =
      let sep = separator measure split s.current word in
      content-if (is_empty word) s _ _
        (λ e. sym (ap (λ r. content s ++ r) (squeeze-empty word e) ∙ append-nil (content s)))
        (λ _.
          content-if (is_empty s.current) _ _ _
            (λ f. sym (
              ap (λ r. (ink s.lines ++ r) ++ squeeze word) (squeeze-empty s.current f)
              ∙ ap (λ r. r ++ squeeze word) (append-nil (ink s.lines))))
            (λ _.
              content-if (leb (measure (s.current ++ (sep ++ word))) w) _ _ _
                (λ _.
                  ap (λ r. ink s.lines ++ r)
                    (squeeze-append s.current (sep ++ word)
                      ∙ ap (λ r. squeeze s.current ++ r)
                          (squeeze-append sep word
                            ∙ ap (λ r. r ++ squeeze word) (separator-blank s.current word)))
                  ∙ sym (append_assoc (ink s.lines) (squeeze s.current) (squeeze word)))
                (λ _. ap (λ r. r ++ squeeze word) (flushed-ink s))))

  -- A word that is cut and put on the lines adds its runes.
  placed-content :
      (w : ℕ) (word : Text) (pieces : List Text) (rest : Text) (s : Wrapped)
      → concat pieces ++ rest ≡ word
      → content (add_word measure split w rest (add_pieces measure split pieces s))
        ≡ content s ++ squeeze word
  placed-content w word pieces rest s e =
      add_word-content w rest (add_pieces measure split pieces s)
      ∙ ap (λ r. r ++ squeeze rest) (add_pieces-content pieces s)
      ∙ append_assoc (content s) (ink pieces) (squeeze rest)
      ∙ ap (λ r. content s ++ r) (sym (squeeze-append (concat pieces) rest) ∙ ap squeeze e)

  wrap_words-content :
      (w : ℕ) (words : List Text) (s : Wrapped)
      → Found (λ t. content t ≡ content s ++ ink words) (wrap_words measure split w words s)
  unfolding wrap_words squeeze
  wrap_words-content w [] s = sym (append-nil (content s))
  wrap_words-content w (word ∷ words) s =
      go (cut_word measure split w (length word) word)
        (cut_word-Found w (length word) word (omega arith)) (λ t. wrap_words-content w words t)
    where
      go :
          (o : Option (List Text × Text))
          → Found (λ t. concat t.0 ++ t.1 ≡ word) o
          → ((t : Wrapped)
              → Found
                  (λ u. content u ≡ content t ++ ink words)
                  (wrap_words measure split w words t))
          → Found
              (λ t. content t ≡ content s ++ ink (word ∷ words))
              (elim o as (λ _. Option Wrapped) [
                | none ↦ none
                | some (pieces, rest) ↦
                    wrap_words measure split w words
                      (add_word measure split w rest (add_pieces measure split pieces s))
              ])
      go none k others = k
      go (some (pieces, rest)) k others =
          let t = add_word measure split w rest (add_pieces measure split pieces s) in
          Found-map (λ u. content u ≡ content t ++ ink words)
            (λ u. content u ≡ content s ++ ink (word ∷ words)) (wrap_words measure split w words t)
            (others t)
            (λ t m.
              m
              ∙ ap (λ r. r ++ ink words) (placed-content w word pieces rest s k)
              ∙ append_assoc (content s) (squeeze word) (ink words)
              ∙ ap (λ r. content s ++ r) (sym (squeeze-append word (concat words))))

  wrap_tokens-ink :
      (w : ℕ) (tokens : List Text)
      → Found (λ ls. ink ls ≡ ink tokens) (wrap_tokens measure split w tokens)
  unfolding wrap_tokens squeeze
  wrap_tokens-ink zero tokens =
      ap squeeze (append-nil (join tokens one_space)) ∙ squeeze-join tokens
  wrap_tokens-ink (suc w) tokens =
      go (wrap_words measure split (suc w) tokens (no_words_yet measure split))
        (wrap_words-content (suc w) tokens (no_words_yet measure split))
    where
      go :
          (o : Option Wrapped)
          → Found (λ t. content t ≡ ink tokens) o
          → Found
              (λ ls. ink ls ≡ ink tokens)
              (elim o as (λ _. Option (List Text)) [
                | none ↦ none
                | some s ↦
                    some (rebalance_wrapped_lines measure (suc w) (flushed measure split s).lines)
              ])
      go none k = k
      go (some s) k = rebalance_wrapped_lines-ink measure (suc w) _ ∙ flushed-ink s ∙ k

  -- wrapLines ends, and its lines hold the runes of the text that are not blank, all of them, each once
  -- and in order, for any width.
  pub wrap_lines-ink :
      (text : Text) (max_width : ℕ)
      → Found (λ ls. ink ls ≡ squeeze text) (wrap_lines measure split text max_width)
  unfolding wrap_lines
  wrap_lines-ink text w =
      let words = strings_fields text in
      elim (Bool-cases (no_lines words)) [
        | inl e ↦ rw (e, wrap_lines) (no_ink words e ∙ ink-fields text)
        | inr e ↦
            rw (e, wrap_lines)
              (Found-map _ _ (wrap_tokens measure split w (expand_cjk_tokens words))
                (wrap_tokens-ink w (expand_cjk_tokens words))
                (λ ls k. k ∙ ap squeeze (concat-expand_cjk_tokens words) ∙ ink-fields text))
      ]
    where
      no_ink : (ws : List Text) → no_lines ws ≡ true → ink [] ≡ ink ws
      no_ink [] e = refl
      no_ink (l ∷ ls) e = absurd (cc)
