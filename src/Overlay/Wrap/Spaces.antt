-- ===== src/Overlay/Wrap/Spaces.antt =====
-- What the functions on blanks keep of a text: its runes that are not blank, in order
-- (backend/internal/services/overlay/draw.go).
use mathlib.Core.List.{append-nil, append_assoc}
use lok_lingo.Prelude.{
  ℕ, ◌≡◌, refl, sym, ap, ◌∙◌, inl, inr, true, false, List, [], ◌∷◌, ◌++◌, Bool-cases, concat,
}
use lok_lingo.Go.Text.{Text, is_empty, join, flush}
use lok_lingo.Overlay.Script.{is_all_cjk, single_runes, expand_cjk_tokens}
use lok_lingo.Overlay.Wrap.{
  is_blank, strings_trim_left, strings_trim_right, strings_trim_space, strings_fields_from,
  strings_fields, one_space,
}

-- The text without its blanks.
unfoldable pub squeeze : Text → Text
squeeze [] = []
squeeze (c ∷ s) = elim (is_blank c) [ true ↦ squeeze s | false ↦ c ∷ squeeze s ]

-- The runes on lines that are not blank.
abbrev pub ink : List Text → Text
ink ls = squeeze (concat ls)

pub squeeze-append : (s t : Text) → squeeze (s ++ t) ≡ squeeze s ++ squeeze t
unfolding squeeze
squeeze-append [] t = refl
squeeze-append (c ∷ s) t = elim (Bool-cases (is_blank c)) [
  | inl e ↦ rw (e, squeeze) (squeeze-append s t)
  | inr e ↦ rw (e, squeeze) (ap (λ r. c ∷ r) (squeeze-append s t))
]

pub concat-append : (ls ms : List Text) → concat (ls ++ ms) ≡ concat ls ++ concat ms
concat-append [] ms = refl
concat-append (l ∷ ls) ms =
    ap (λ r. l ++ r) (concat-append ls ms) ∙ sym (append_assoc l (concat ls) (concat ms))

pub ink-append : (ls ms : List Text) → ink (ls ++ ms) ≡ ink ls ++ ink ms
ink-append ls ms = ap squeeze (concat-append ls ms) ∙ squeeze-append (concat ls) (concat ms)

pub ink-flush : (s : Text) → ink (flush s) ≡ squeeze s
ink-flush [] = refl
ink-flush (c ∷ s) = ap squeeze (append-nil (c ∷ s))

squeeze-blank : (c : ℕ) (s : Text) → is_blank c ≡ true → squeeze (c ∷ s) ≡ squeeze s
unfolding squeeze
squeeze-blank c s e = rw (e, squeeze) refl

squeeze-inked : (c : ℕ) (s : Text) → is_blank c ≡ false → squeeze (c ∷ s) ≡ c ∷ squeeze s
unfolding squeeze
squeeze-inked c s e = rw (e, squeeze) refl

pub squeeze-empty : (s : Text) → is_empty s ≡ true → squeeze s ≡ []
unfolding squeeze
squeeze-empty [] e = refl
squeeze-empty (c ∷ s) e = absurd (cc)

squeeze-trim_left : (s : Text) → squeeze (strings_trim_left s) ≡ squeeze s
unfolding strings_trim_left
squeeze-trim_left [] = refl
squeeze-trim_left (c ∷ s) = elim (Bool-cases (is_blank c)) [
  | inl e ↦ rw (e, strings_trim_left) (squeeze-trim_left s ∙ sym (squeeze-blank c s e))
  | inr e ↦ rw (e, strings_trim_left) refl
]

squeeze-trim_right : (s : Text) → squeeze (strings_trim_right is_blank s) ≡ squeeze s
unfolding strings_trim_right
squeeze-trim_right [] = refl
squeeze-trim_right (c ∷ s) =
    let rest = strings_trim_right is_blank s in
    elim (Bool-cases (is_blank c)) [
      | inr e ↦
          rw (e, strings_trim_right)
            (squeeze-inked c rest e
              ∙ ap (λ r. c ∷ r) (squeeze-trim_right s)
              ∙ sym (squeeze-inked c s e))
      | inl e ↦ elim (Bool-cases (is_empty rest)) [
        | inl f ↦
            rw (e, strings_trim_right)
              (rw f (
                squeeze-empty [] refl
                ∙ sym (squeeze-empty rest f)
                ∙ squeeze-trim_right s
                ∙ sym (squeeze-blank c s e)))
        | inr f ↦
            rw (e, strings_trim_right)
              (rw f (squeeze-blank c rest e ∙ squeeze-trim_right s ∙ sym (squeeze-blank c s e)))
      ]
    ]

pub squeeze-trim_space : (s : Text) → squeeze (strings_trim_space s) ≡ squeeze s
squeeze-trim_space s = squeeze-trim_right (strings_trim_left s) ∙ squeeze-trim_left s

ink-fields_from : (w s : Text) → ink (strings_fields_from w s) ≡ squeeze (w ++ s)
unfolding strings_fields_from squeeze
ink-fields_from w [] = ink-flush w ∙ ap squeeze (sym (append-nil w))
ink-fields_from w (c ∷ s) = elim (Bool-cases (is_blank c)) [
  | inl e ↦
      rw (e, strings_fields_from)
        (ink-append (flush w) (strings_fields_from [] s)
          ∙ ap (λ r. r ++ ink (strings_fields_from [] s)) (ink-flush w)
          ∙ ap (λ r. squeeze w ++ r) (ink-fields_from [] s)
          ∙ sym (squeeze-append w (c ∷ s) ∙ ap (λ r. squeeze w ++ r) (squeeze-blank c s e)))
  | inr e ↦
      rw (e, strings_fields_from)
        (ink-fields_from (w ++ c ∷ []) s ∙ ap squeeze (append_assoc w (c ∷ []) s))
]

-- Splitting a text into its words loses only blanks.
pub ink-fields : (s : Text) → ink (strings_fields s) ≡ squeeze s
ink-fields s = ink-fields_from [] s

pub squeeze-join : (ws : List Text) → squeeze (join ws one_space) ≡ ink ws
unfolding join squeeze is_blank
squeeze-join [] = refl
squeeze-join (w ∷ []) = ap squeeze (sym (append-nil w))
squeeze-join (w ∷ v ∷ ws) =
    squeeze-append w (one_space ++ join (v ∷ ws) one_space)
    ∙ ap (λ r. squeeze w ++ r) (squeeze-join (v ∷ ws))
    ∙ sym (squeeze-append w (concat (v ∷ ws)))

concat-single_runes : (w : Text) → concat (single_runes w) ≡ w
concat-single_runes [] = refl
concat-single_runes (c ∷ w) = ap (λ r. c ∷ r) (concat-single_runes w)

pub concat-expand_cjk_tokens : (ws : List Text) → concat (expand_cjk_tokens ws) ≡ concat ws
unfolding expand_cjk_tokens
concat-expand_cjk_tokens [] = refl
concat-expand_cjk_tokens (w ∷ ws) = elim (Bool-cases (is_all_cjk w)) [
  | inl e ↦
      rw (e, expand_cjk_tokens)
        (concat-append (single_runes w) _
          ∙ ap (λ r. r ++ concat (expand_cjk_tokens ws)) (concat-single_runes w)
          ∙ ap (λ r. w ++ r) (concat-expand_cjk_tokens ws))
  | inr e ↦ rw (e, expand_cjk_tokens) (ap (λ r. w ++ r) (concat-expand_cjk_tokens ws))
]
