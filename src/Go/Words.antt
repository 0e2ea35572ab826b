-- ===== src/Go/Words.antt =====
-- Words of a text: strings.Fields returns words, and undoes strings.Join with one space between.
use mathlib.Core.List.{append-nil, append_assoc}
use lok_lingo.Prelude.{
  ◌≡◌, refl, ◌∙◌, ap, sym, false, List, [], ◌∷◌, ◌++◌, inl, inr, Bool-cases, All, All-append,
}
use lok_lingo.Go.Text.{Text, is_space, is_empty, join, flush, fields_from, fields}

abbrev pub IsSolid : Text → Type 0
IsSolid = All (λ c. is_space c ≡ false)

-- A word is not empty and holds no white space.
abbrev pub IsWord : Text → Type 0
IsWord w = (is_empty w ≡ false) × IsSolid w

abbrev pub space : Text
space = 32 ∷ []

flush-IsWord : (w : Text) → IsSolid w → All IsWord (flush w)
flush-IsWord [] h = tt
flush-IsWord (c ∷ w) h = ((refl, h), tt)

flush_word : (w : Text) → is_empty w ≡ false → flush w ≡ w ∷ []
flush_word [] h = cc
flush_word (c ∷ w) h = refl

fields_from-IsWord : (w s : Text) → IsSolid w → All IsWord (fields_from w s)
unfolding fields_from
fields_from-IsWord w [] h = flush-IsWord w h
fields_from-IsWord w (c ∷ s) h = elim (Bool-cases (is_space c)) [
  | inl e ↦
      rw (e, fields_from)
        (All-append IsWord (flush w) (fields_from [] s) (flush-IsWord w h)
          (fields_from-IsWord [] s tt))
  | inr e ↦
      rw (e, fields_from) (fields_from-IsWord (w ++ c ∷ []) s (All-append _ w (c ∷ []) h (e, tt)))
]

pub fields-IsWord : (s : Text) → All IsWord (fields s)
unfolding fields
fields-IsWord s = fields_from-IsWord [] s tt

-- Solid text at the front joins the word read so far.
fields_from-append : (p w s : Text) → IsSolid w → fields_from p (w ++ s) ≡ fields_from (p ++ w) s
unfolding fields_from
fields_from-append p [] s h = rw append-nil
fields_from-append p (c ∷ w) s h =
    rw (h.0, fields_from)
      (fields_from-append (p ++ c ∷ []) w s h.1
        ∙ ap (λ t. fields_from t s) (append_assoc p (c ∷ []) w))

pub fields-join : (ws : List Text) → All IsWord ws → fields (join ws space) ≡ ws
unfolding fields fields_from join is_space
fields-join [] h = refl
fields-join (w ∷ []) h =
    ap fields (sym (append-nil w)) ∙ fields_from-append [] w [] h.0.1 ∙ flush_word w h.0.0
fields-join (w ∷ v ∷ r) h =
    fields_from-append [] w (32 ∷ join (v ∷ r) space) h.0.1
    ∙ ap (λ x. x ++ fields (join (v ∷ r) space)) (flush_word w h.0.0)
    ∙ ap (λ x. w ∷ x) (fields-join (v ∷ r) h.1)
