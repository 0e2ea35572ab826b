-- ===== src/Go/Spaces.antt =====
-- Words across white space: strings.TrimSpace and strings.Join with white space keep the words of texts.
use mathlib.Core.List.{append-nil, append_assoc}
use lok_lingo.Prelude.{ℕ, ◌≡◌, refl, ◌∙◌, ap, sym, inl, inr, true, List, [], ◌∷◌, ◌++◌, Bool-cases}
use lok_lingo.Go.Text.{
  Text, codes, is_empty, is_space, trim_left, trim_right, trim_space, fields, fields_from, flush,
  join,
}

-- All the words of some texts, in order.
unfoldable pub words_of : List Text → List Text
words_of [] = []
words_of (p ∷ ps) = fields p ++ words_of ps

-- White space ends a word.
fields_from-space :
    (c : ℕ) (w s t : Text)
    → is_space c ≡ true
    → fields_from w (s ++ c ∷ t) ≡ fields_from w s ++ fields t
unfolding fields_from fields
fields_from-space c w [] t h = rw (h, fields_from) refl
fields_from-space c w (d ∷ s) t h = elim (Bool-cases (is_space d)) [
  | inl e ↦
      rw (e, fields_from)
        (ap (λ r. flush w ++ r) (fields_from-space c [] s t h)
          ∙ sym (append_assoc (flush w) (fields_from [] s) (fields_from [] t)))
  | inr e ↦ rw (e, fields_from) (fields_from-space c (w ++ d ∷ []) s t h)
]

pub fields-space : (s t : Text) → fields (s ++ 32 ∷ t) ≡ fields s ++ fields t
unfolding fields is_space
fields-space s t = fields_from-space 32 [] s t refl

pub fields-break : (s t : Text) → fields (s ++ 10 ∷ 10 ∷ t) ≡ fields s ++ fields t
unfolding fields is_space
fields-break s t =
    fields_from-space 10 [] s (10 ∷ t) refl
    ∙ ap (λ r. fields s ++ r) (fields_from-space 10 [] [] t refl)

fields-trim_left : (s : Text) → fields (trim_left s) ≡ fields s
unfolding fields fields_from trim_left
fields-trim_left [] = refl
fields-trim_left (c ∷ s) = elim (Bool-cases (is_space c)) [
  | inl e ↦ rw (e, trim_left, fields_from) (fields-trim_left s)
  | inr e ↦ rw (e, trim_left) refl
]

empty : (s : Text) → is_empty s ≡ true → s ≡ []
empty [] h = refl
empty (c ∷ s) h = absurd cc

fields_from-trim_right : (w s : Text) → fields_from w (trim_right s) ≡ fields_from w s
unfolding fields_from trim_right
fields_from-trim_right w [] = refl
fields_from-trim_right w (c ∷ s) = elim (Bool-cases (is_space c)) [
  | inl e ↦ elim (Bool-cases (is_empty (trim_right s))) [
    | inl f ↦
        rw (e, f, fields_from)
          (sym (append-nil (flush w))
            ∙ ap (λ r. flush w ++ r)
                (ap (fields_from []) (sym (empty (trim_right s) f)) ∙ fields_from-trim_right [] s))
    | inr f ↦ rw (e, f, fields_from) (rw e (ap (λ r. flush w ++ r) (fields_from-trim_right [] s)))
  ]
  | inr e ↦ rw (e, fields_from) (rw e (fields_from-trim_right (w ++ c ∷ []) s))
]

pub fields-trim_space : (s : Text) → fields (trim_space s) ≡ fields s
unfolding fields trim_space
fields-trim_space s = fields_from-trim_right [] (trim_left s) ∙ fields-trim_left s

pub fields_nil : fields [] ≡ []
unfolding fields fields_from
fields_nil = refl

pub fields-join_breaks : (ps : List Text) → fields (join ps (codes "\n\n")) ≡ words_of ps
unfolding join words_of
fields-join_breaks [] = fields_nil
fields-join_breaks (p ∷ []) = sym (append-nil (fields p))
fields-join_breaks (p ∷ q ∷ ps) =
    fields-break p (join (q ∷ ps) (codes "\n\n"))
    ∙ ap (λ r. fields p ++ r) (fields-join_breaks (q ∷ ps))

pub fields-join_spaced : (ps : List Text) → fields (join ps (codes " ")) ≡ words_of ps
unfolding join words_of
fields-join_spaced [] = fields_nil
fields-join_spaced (p ∷ []) = sym (append-nil (fields p))
fields-join_spaced (p ∷ q ∷ ps) =
    fields-space p (join (q ∷ ps) (codes " "))
    ∙ ap (λ r. fields p ++ r) (fields-join_spaced (q ∷ ps))

pub words_of-append : (ps qs : List Text) → words_of (ps ++ qs) ≡ words_of ps ++ words_of qs
unfolding words_of
words_of-append [] qs = refl
words_of-append (p ∷ ps) qs =
    ap (λ r. fields p ++ r) (words_of-append ps qs)
    ∙ sym (append_assoc (fields p) (words_of ps) (words_of qs))
