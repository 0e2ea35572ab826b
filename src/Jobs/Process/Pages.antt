-- ===== src/Jobs/Process/Pages.antt =====
-- The translated pages in Worker.process hold the translated units, in order (backend/jobs/worker.go).
use mathlib.Core.List.{append-nil, append_assoc}
use lok_lingo.Prelude.{
  ℕ, zero, suc, ◌≤◌, ◌<◌, ◌≡◌, refl, sym, ap, ◌∙◌, List, [], ◌∷◌, ◌++◌, map, concat, arith, length,
}
use lok_lingo.Go.Text.{Text, codes, fields, join}
use lok_lingo.Go.Spaces.{
  words_of, words_of-append, fields-trim_space, fields-join_breaks, fields-join_spaced,
}
use lok_lingo.Jobs.Chunks.{ChunkUnit}
use lok_lingo.Jobs.Translate.{texts_of}
use lok_lingo.Jobs.Translate.Alignment.{pages_of}
use lok_lingo.Jobs.Process.Document.{add_part, add_parts, page_text}

-- The words of the parts of all pages.
abbrev pub page_words : List (List Text) → List Text
page_words pss = concat (map words_of pss)

abbrev AllNil : List (List Text) → Type 0
AllNil [] = Unit
AllNil (ps ∷ pss) = (ps ≡ []) × AllNil pss

-- No page behind this one has a part yet.
abbrev NilAfter : ℕ → List (List Text) → Type 0
NilAfter i [] = Unit
NilAfter zero (ps ∷ pss) = AllNil pss
NilAfter (suc i) (ps ∷ pss) = NilAfter i pss

-- Page numbers that do not fall, from one number to below another.
abbrev pub Ascends : ℕ → ℕ → List ℕ → Type 0
Ascends lo n [] = Unit
Ascends lo n (i ∷ is) = (lo ≤ i) × (i < n) × Ascends i n is

AllNil-words : (pss : List (List Text)) → AllNil pss → page_words pss ≡ []
unfolding words_of
AllNil-words [] h = refl
AllNil-words (ps ∷ pss) h = rw (h.0, words_of) (AllNil-words pss h.1)

AllNil-NilAfter : (i : ℕ) (pss : List (List Text)) → AllNil pss → NilAfter i pss
AllNil-NilAfter i [] h = tt
AllNil-NilAfter zero (ps ∷ pss) h = h.1
AllNil-NilAfter (suc i) (ps ∷ pss) h = AllNil-NilAfter i pss h.1

NilAfter-mono : (i j : ℕ) (pss : List (List Text)) → i ≤ j → NilAfter i pss → NilAfter j pss
NilAfter-mono i j [] h n = tt
NilAfter-mono zero zero (ps ∷ pss) h n = n
NilAfter-mono zero (suc j) (ps ∷ pss) h n = AllNil-NilAfter j pss n
NilAfter-mono (suc i) zero (ps ∷ pss) h n = absurd (omega arith)
NilAfter-mono (suc i) (suc j) (ps ∷ pss) h n = NilAfter-mono i j pss (omega arith) n

add_part-NilAfter :
    (i : ℕ) (t : Text) (pss : List (List Text)) → NilAfter i pss → NilAfter i (add_part i t pss)
add_part-NilAfter i t [] h = tt
add_part-NilAfter zero t (ps ∷ pss) h = h
add_part-NilAfter (suc i) t (ps ∷ pss) h = add_part-NilAfter i t pss h

length-add_part :
    (i : ℕ) (t : Text) (pss : List (List Text)) → length (add_part i t pss) ≡ length pss
length-add_part i t [] = refl
length-add_part zero t (ps ∷ pss) = refl
length-add_part (suc i) t (ps ∷ pss) = ap suc (length-add_part i t pss)

words_of-snoc : (ps : List Text) (t : Text) → words_of (ps ++ t ∷ []) ≡ words_of ps ++ fields t
words_of-snoc ps t =
    words_of-append ps (t ∷ [])
    ∙ ap (λ r. words_of ps ++ r) (unfold words_of in append-nil (fields t))

page_words-add_part :
    (i : ℕ) (t : Text) (pss : List (List Text))
    → NilAfter i pss
    → i < length pss
    → page_words (add_part i t pss) ≡ page_words pss ++ fields t
page_words-add_part i t [] h k = absurd (omega arith)
page_words-add_part zero t (ps ∷ pss) h k = rw (AllNil-words pss h) (
    append-nil (words_of (ps ++ t ∷ []))
    ∙ words_of-snoc ps t
    ∙ ap (λ r. r ++ fields t) (sym (append-nil (words_of ps))))
page_words-add_part (suc i) t (ps ∷ pss) h k =
    ap (λ r. words_of ps ++ r) (page_words-add_part i t pss h (omega arith))
    ∙ sym (append_assoc (words_of ps) (page_words pss) (fields t))

page_words-add_parts :
    (us : List ChunkUnit) (i : ℕ) (pss : List (List Text))
    → NilAfter i pss
    → Ascends i (length pss) (pages_of us)
    → page_words (add_parts us pss) ≡ page_words pss ++ words_of (texts_of us)
unfolding add_parts words_of
page_words-add_parts [] i pss h a = sym (append-nil (page_words pss))
page_words-add_parts (u ∷ us) i pss h a =
    let j = u.page_index in
    let k = NilAfter-mono i j pss a.0 h in
    page_words-add_parts us j (add_part j u.text pss) (add_part-NilAfter j u.text pss k)
      (rw (length-add_part j u.text pss) a.2)
    ∙ ap (λ r. r ++ words_of (texts_of us)) (page_words-add_part j u.text pss k a.1)
    ∙ append_assoc (page_words pss) (fields u.text) (words_of (texts_of us))

empty_pages : (pages : List Text) → AllNil (map (λ _. []) pages)
empty_pages [] = tt
empty_pages (p ∷ pages) = (refl, empty_pages pages)

length-empty_pages :
    (pages : List Text) → length (map {B = List Text} (λ _. []) pages) ≡ length pages
length-empty_pages [] = refl
length-empty_pages (p ∷ pages) = ap suc (length-empty_pages pages)

-- Units whose pages do not fall leave their words, in order.
pub page_words_from_nothing :
    (us : List ChunkUnit) (pages : List Text)
    → Ascends 0 (length pages) (pages_of us)
    → page_words (add_parts us (map (λ _. []) pages)) ≡ words_of (texts_of us)
page_words_from_nothing us pages a =
    page_words-add_parts us 0 (map (λ _. []) pages)
      (AllNil-NilAfter 0 (map (λ _. []) pages) (empty_pages pages))
      (rw (length-empty_pages pages) a)
    ∙ ap (λ r. r ++ words_of (texts_of us)) (AllNil-words (map (λ _. []) pages) (empty_pages pages))

words_of-page_text : (pss : List (List Text)) → words_of (map page_text pss) ≡ page_words pss
unfolding words_of
words_of-page_text [] = refl
words_of-page_text (ps ∷ pss) =
    ap (λ r. r ++ words_of (map page_text pss))
      (fields-trim_space (join ps (codes " ")) ∙ fields-join_spaced ps)
    ∙ ap (λ r. words_of ps ++ r) (words_of-page_text pss)

-- The words of the text that is made of the pages.
pub fields-pages :
    (pss : List (List Text)) → fields (join (map page_text pss) (codes "\n\n")) ≡ page_words pss
fields-pages pss = fields-join_breaks (map page_text pss) ∙ words_of-page_text pss
