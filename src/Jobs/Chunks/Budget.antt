-- ===== src/Jobs/Chunks/Budget.antt =====
-- splitByWordBudget and buildChunkUnits keep every word, in order, within the budget.
use mathlib.Core.List.{append-nil}
use lok_lingo.Prelude.{
  ℕ, zero, suc, ◌≤◌, ◌<◌, ◌≡◌, refl, sym, ap, ◌∙◌, inl, inr, true, false, List, [], ◌∷◌, ◌++◌, map,
  some, All, All-take, All-drop, concat, arith, Bool-cases, length, length-take, length-drop, take,
  drop, take-append-drop, leb, leb→le,
}
use lok_lingo.Go.Text.{
  Text, is_space, is_empty, trim_left, trim_right, trim_space, fields, fields_from, join,
}
use lok_lingo.Go.Words.{IsWord, fields-IsWord, fields-join, space}
use lok_lingo.Jobs.Chunks.{
  ChunkUnit, windows, split_by_word_budget, units_from, build_chunk_units, unit_of, ◌>>=◌,
}

-- A text that is blank has no words.
trim_right-blank : (s : Text) → is_empty (trim_right s) ≡ true → fields s ≡ []
unfolding trim_right fields fields_from
trim_right-blank [] h = refl
trim_right-blank (c ∷ s) h = elim (Bool-cases (is_space c)) [
  | inl e ↦ rw (e, fields_from) (trim_right-blank s (ground arith))
  | inr e ↦ ground arith
]

fields_from_pos : (w s : Text) → is_empty w ≡ false → 0 < length (fields_from w s)
unfolding fields_from
fields_from_pos [] s h = cc
fields_from_pos (d ∷ w) [] h = omega arith
fields_from_pos (d ∷ w) (c ∷ s) h = elim (Bool-cases (is_space c)) [
  | inl e ↦ rw (e, fields_from) (omega arith)
  | inr e ↦ rw (e, fields_from) (fields_from_pos (d ∷ w ++ c ∷ []) s refl)
]

trim_right-not_blank : (s : Text) → is_empty (trim_right s) ≡ false → 0 < length (fields s)
unfolding trim_right fields fields_from
trim_right-not_blank [] h = cc
trim_right-not_blank (c ∷ s) h = elim (Bool-cases (is_space c)) [
  | inl e ↦ rw (e, fields_from) (trim_right-not_blank s (ground arith))
  | inr e ↦ rw (e, fields_from) (fields_from_pos (c ∷ []) s refl)
]

fields-trim_left : (s : Text) → fields (trim_left s) ≡ fields s
unfolding trim_left fields fields_from
fields-trim_left [] = refl
fields-trim_left (c ∷ s) = elim (Bool-cases (is_space c)) [
  | inl e ↦ rw (e, trim_left, fields_from) (fields-trim_left s)
  | inr e ↦ rw (e, trim_left) refl
]

-- What holds of the parts of a text with the words `ws`: their words are those, in that order, and no
-- part is empty or over the budget.
pub record IsWithin (max_words : ℕ) (ws : List Text) (parts : List Text) : Type 0 where
  pub kept : concat (map fields parts) ≡ ws
  pub sized : All (λ part. (0 < length (fields part)) × (length (fields part) ≤ max_words)) parts

windows-IsWithin :
    (fuel m : ℕ) (ws : List Text)
    → length ws ≤ fuel
    → All IsWord ws
    → (parts : List Text) × (windows fuel (suc m) ws ≡ some parts) × IsWithin (suc m) ws parts
unfolding windows
windows-IsWithin fuel m [] h a = ([], refl, record { kept = refl; sized = tt })
windows-IsWithin zero m (w ∷ ws) h a = elim h [ ]
windows-IsWithin (suc fuel) m (w ∷ ws) h a =
    let (parts, e, inside) =
      windows-IsWithin fuel m (drop m ws) (omega (arith, length-drop m ws))
        (All-drop IsWord m ws a.1) in
    let f : fields (join (w ∷ take m ws) space) ≡ w ∷ take m ws =
      fields-join (w ∷ take m ws) (a.0, All-take IsWord m ws a.1) in
    (
      join (w ∷ take m ws) space ∷ parts,
      rw (e, ◌>>=◌),
      record {
        kept =
            ap (λ x. x ++ concat (map fields parts)) f
            ∙ ap (λ x. w ∷ take m ws ++ x) inside.kept
            ∙ ap (λ x. w ∷ x) (take-append-drop m ws);
        sized = (rw f (omega arith, omega (arith, length-take m ws)), inside.sized);
      },
    )

-- For a positive budget the cut ends; its parts have the words of the text, in order, and none is empty
-- or over the budget.
pub split_by_word_budget-IsWithin :
    (text : Text) (max_words : ℕ)
    → 0 < max_words
    → (parts : List Text) × (split_by_word_budget text max_words ≡ some parts)
      × IsWithin max_words (fields text) parts
unfolding split_by_word_budget
split_by_word_budget-IsWithin text zero h = elim h [ ]
split_by_word_budget-IsWithin text (suc m) h = elim (Bool-cases (is_empty (trim_space text))) [
  | inl e ↦ ([], rw e, record { kept = sym (blank e); sized = tt })
  | inr e ↦ elim (Bool-cases (leb (length (fields text)) (suc m))) [
    | inl q ↦ (
      join (fields text) space ∷ [],
      rw (e, q),
      record {
        kept = ap (λ x. x ++ []) joined ∙ append-nil (fields text);
        sized = (rw joined (solid e, leb→le _ _ q), tt);
      },
    )
    | inr q ↦
        let (parts, r, inside) =
          windows-IsWithin (length (fields text)) m (fields text) (omega arith)
            (fields-IsWord text) in
        (parts, rw (e, q) r, inside)
  ]
]
  where
    joined : fields (join (fields text) space) ≡ fields text
    joined = fields-join (fields text) (fields-IsWord text)

    solid : is_empty (trim_space text) ≡ false → 0 < length (fields text)
    solid e =
        rw (fields-trim_left text) at
          (trim_right-not_blank (trim_left text) (unfold trim_space in e))

    blank : is_empty (trim_space text) ≡ true → fields text ≡ []
    blank e =
        sym (fields-trim_left text) ∙ trim_right-blank (trim_left text) (unfold trim_space in e)

-- The units of one page: the page's index, its words in order, and each count right and within budget.
pub record IsPage (max_words page : ℕ) (text : Text) (units : List ChunkUnit) : Type 0 where
  pub kept : concat (map (λ u. fields u.text) units) ≡ fields text
  pub sized :
      All
        (λ u.
          (u.page_index ≡ page)
          × (u.words ≡ length (fields u.text))
          × (0 < u.words)
          × (u.words ≤ max_words))
        units

-- The units of a document, page by page.
abbrev pub IsDocument : ℕ → ℕ → List Text → List (List ChunkUnit) → Type 0
IsDocument max_words page [] [] = Unit
IsDocument max_words page (text ∷ pages) (units ∷ rest) =
    IsPage max_words page text units × IsDocument max_words (suc page) pages rest
IsDocument max_words page _ _ = ⊥

unit_of-IsPage :
    (m page : ℕ) (ws parts : List Text) (text : Text)
    → fields text ≡ ws
    → IsWithin m ws parts
    → IsPage m page text (map (unit_of page) parts)
unit_of-IsPage m page ws parts text e h = record {
  kept = kept_words parts ∙ h.kept ∙ sym e;
  sized = sized_units parts h.sized;
}
  where
    kept_words :
        (ps : List Text)
        → concat (map (λ (u : ChunkUnit). fields u.text) (map (unit_of page) ps))
          ≡ concat (map fields ps)
    kept_words [] = refl
    kept_words (p ∷ ps) = ap (λ x. fields p ++ x) (kept_words ps)

    sized_units :
        (ps : List Text)
        → All (λ part. (0 < length (fields part)) × (length (fields part) ≤ m)) ps
        → All
            (λ (u : ChunkUnit).
              (u.page_index ≡ page)
              × (u.words ≡ length (fields u.text))
              × (0 < u.words)
              × (u.words ≤ m))
            (map (unit_of page) ps)
    sized_units [] a = tt
    sized_units (p ∷ ps) a = ((refl, refl, a.0.0, a.0.1), sized_units ps a.1)

units_from-IsDocument :
    (m page : ℕ) (pages : List Text)
    → 0 < m
    → (blocks : List (List ChunkUnit)) × (units_from page pages m ≡ some (concat blocks))
      × IsDocument m page pages blocks
unfolding units_from
units_from-IsDocument m page [] h = ([], refl, tt)
units_from-IsDocument m page (text ∷ pages) h =
    let (parts, e, inside) = split_by_word_budget-IsWithin text m h in
    let (blocks, f, rest) = units_from-IsDocument m (suc page) pages h in
    (
      map (unit_of page) parts ∷ blocks,
      rw (e, ◌>>=◌) (rw (f, ◌>>=◌) refl),
      (unit_of-IsPage m page (fields text) parts text refl inside, rest),
    )

-- For a positive budget the units of a document are those of its pages, in page order. The units of one
-- page carry its index and hold its words in order; none is empty or over the budget.
pub build_chunk_units-IsDocument :
    (pages : List Text) (max_words : ℕ)
    → 0 < max_words
    → (blocks : List (List ChunkUnit)) × (build_chunk_units pages max_words ≡ some (concat blocks))
      × IsDocument max_words 0 pages blocks
unfolding build_chunk_units
build_chunk_units-IsDocument pages max_words h = units_from-IsDocument max_words 0 pages h
