-- ===== src/Jobs/Normalize/Contents.antt =====
-- The words of a text that is normalised (backend/jobs/translate.go).
use mathlib.Core.List.{append-nil, append_assoc}
use lok_lingo.Prelude.{
  ◌≡◌, refl, ◌∙◌, ap, sym, inl, inr, true, false, List, [], ◌∷◌, ◌++◌, Bool-cases, ℕ, arith,
}
use lok_lingo.Go.Text.{Text, codes, trim_space, fields, join, split, split_from, has_prefix}
use lok_lingo.Go.Spaces.{words_of, fields-break, fields-trim_space, fields_nil, fields-join_breaks}
use lok_lingo.Go.Words.{fields-join, fields-IsWord}
use lok_lingo.Jobs.Normalize.{cons_filled, normalize_paragraphs, normalize_text, normalize_pages}

abbrev breaks : Text
breaks = codes "\n\n"

has_prefix-breaks :
    (c d : ℕ) (s : Text) → has_prefix (c ∷ d ∷ s) breaks ≡ true → (c ≡ 10) × (d ≡ 10)
unfolding has_prefix
has_prefix-breaks c d s h = ground (arith, h)

has_prefix-single : (c : ℕ) → has_prefix (c ∷ []) breaks ≡ false
unfolding has_prefix
has_prefix-single c = ground arith

-- The separators are white space, so the parts have the words of the text.
words_of-split_from : (part s : Text) → words_of (split_from breaks 0 part s) ≡ fields (part ++ s)
unfolding words_of split_from
words_of-split_from part [] = append-nil (fields part) ∙ ap fields (sym (append-nil part))
words_of-split_from part (c ∷ []) =
    rw (has_prefix-single c, split_from) (append-nil (fields (part ++ c ∷ [])))
words_of-split_from part (c ∷ d ∷ s) = elim (Bool-cases (has_prefix (c ∷ d ∷ s) breaks)) [
  | inl e ↦
      let (p, q) = has_prefix-breaks c d s e in
      rw (e, split_from)
        (ap (λ r. fields part ++ r) (words_of-split_from [] s)
          ∙ sym (fields-break part s)
          ∙ ap (λ x. fields (part ++ x ∷ 10 ∷ s)) (sym p)
          ∙ ap (λ x. fields (part ++ c ∷ x ∷ s)) (sym q))
  | inr e ↦
      rw (e, split_from)
        (words_of-split_from (part ++ c ∷ []) (d ∷ s)
          ∙ ap fields (append_assoc part (c ∷ []) (d ∷ s)))
]

words_of-cons_filled :
    (p : Text) (out : List Text) → words_of (cons_filled p out) ≡ fields p ++ words_of out
unfolding words_of
words_of-cons_filled [] out = ap (λ r. r ++ words_of out) (sym fields_nil)
words_of-cons_filled (c ∷ p) out = refl

words_of-normalize_paragraphs : (ps : List Text) → words_of (normalize_paragraphs ps) ≡ words_of ps
unfolding words_of normalize_paragraphs
words_of-normalize_paragraphs [] = refl
words_of-normalize_paragraphs (p ∷ ps) =
    words_of-cons_filled (join (fields p) (codes " ")) (normalize_paragraphs ps)
    ∙ ap (λ r. r ++ words_of (normalize_paragraphs ps)) (fields-join (fields p) (fields-IsWord p))
    ∙ ap (λ r. fields p ++ r) (words_of-normalize_paragraphs ps)

pub fields-normalize_text : (s : Text) → fields (normalize_text s) ≡ fields s
unfolding normalize_text split
fields-normalize_text s =
    fields-join_breaks (normalize_paragraphs (split (trim_space s) breaks))
    ∙ words_of-normalize_paragraphs (split (trim_space s) breaks)
    ∙ words_of-split_from [] (trim_space s)
    ∙ fields-trim_space s

-- The pages that are normalised have the words of the pages as they were, all of them and in the same order.
pub words_of-normalize_pages : (raw : List Text) → words_of (normalize_pages raw) ≡ words_of raw
unfolding words_of normalize_pages
words_of-normalize_pages [] = refl
words_of-normalize_pages (p ∷ raw) =
    words_of-cons_filled (normalize_text p) (normalize_pages raw)
    ∙ ap (λ r. r ++ words_of (normalize_pages raw)) (fields-normalize_text p)
    ∙ ap (λ r. fields p ++ r) (words_of-normalize_pages raw)
