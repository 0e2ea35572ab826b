-- ===== src/Jobs/Chunks/Grouping.antt =====
-- buildTextChunks keeps the units, in order, and bounds the words of each chunk.
use mathlib.Core.List.{append_assoc}
use lok_lingo.Prelude.{
  ℕ, ◌+◌, ◌-◌, ◌≤◌, ◌<◌, ◌≡◌, refl, ap, ◌∙◌, inl, inr, true, false, List, [], ◌∷◌, ◌++◌, map, All,
  concat, arith, Bool-cases, if◌then◌else◌,
}
use lok_lingo.Jobs.Chunks.{
  ChunkUnit, TextChunk, add_unit, no_units, is_nil, is_full, chunks_from, build_text_chunks,
  sum_unit_words,
}

abbrev pub units_of : TextChunk → List ChunkUnit
units_of c = c.units

is_nil-append : (us : List ChunkUnit) (u : ChunkUnit) → is_nil (us ++ u ∷ []) ≡ false
is_nil-append [] u = refl
is_nil-append (v ∷ us) u = refl

last-concat :
    (us : List ChunkUnit) (n : ℕ)
    → let c : TextChunk = record { units = us; words = n } in
      concat (map units_of (if is_nil us then [] else c ∷ [])) ≡ us ++ []
last-concat [] n = refl
last-concat (u ∷ us) n = refl

module _ (min_words max_words : ℕ) where
  chunks_from-concat :
      (current : TextChunk) (us : List ChunkUnit)
      → concat (map units_of (chunks_from min_words max_words current us)) ≡ current.units ++ us
  unfolding chunks_from
  chunks_from-concat current [] = last-concat current.units current.words
  chunks_from-concat current (u ∷ us) = elim (Bool-cases (is_full min_words max_words current u)) [
    | inl e ↦
        rw (e, chunks_from)
          (ap (λ x. current.units ++ x) (chunks_from-concat (add_unit no_units u) us))
    | inr e ↦
        rw (e, chunks_from)
          (chunks_from-concat (add_unit current u) us ∙ append_assoc current.units (u ∷ []) us)
  ]

-- The chunks hold the units that were given: each once, in the order given.
pub build_text_chunks-concat :
    (units : List ChunkUnit) (min_words max_words : ℕ)
    → concat (map units_of (build_text_chunks units min_words max_words)) ≡ units
unfolding build_text_chunks
build_text_chunks-concat [] lo hi = refl
build_text_chunks-concat (u ∷ us) lo hi = chunks_from-concat lo hi no_units (u ∷ us)

-- What holds of a finished chunk: it has a unit, its count is the sum over its units, and its words
-- pass the maximum by less than the minimum.
pub record IsChunk (min_words max_words : ℕ) (c : TextChunk) : Type 0 where
  pub not_nil : is_nil c.units ≡ false
  pub counted : c.words ≡ sum_unit_words c.units
  pub bounded : c.words ≤ max_words + (min_words - 1)

-- Every chunk but the last has the minimum.
abbrev pub IsFilled : ℕ → List TextChunk → Type 0
IsFilled min_words [] = Unit
IsFilled min_words (c ∷ []) = Unit
IsFilled min_words (c ∷ d ∷ r) = (min_words ≤ c.words) × IsFilled min_words (d ∷ r)

IsFilled-cons :
    (m : ℕ) (c : TextChunk) (l : List TextChunk) → m ≤ c.words → IsFilled m l → IsFilled m (c ∷ l)
IsFilled-cons m c [] h f = tt
IsFilled-cons m c (d ∷ r) h f = (h, f)

sum_unit_words-append :
    (us : List ChunkUnit) (u : ChunkUnit)
    → sum_unit_words (us ++ u ∷ []) ≡ sum_unit_words us + u.words
unfolding sum_unit_words
sum_unit_words-append [] u = omega arith
sum_unit_words-append (v ∷ us) u = omega (arith, sum_unit_words-append us u)

is_nil-sum_unit_words : (us : List ChunkUnit) → is_nil us ≡ true → sum_unit_words us ≡ 0
unfolding sum_unit_words
is_nil-sum_unit_words [] h = refl
is_nil-sum_unit_words (u ∷ us) h = cc

-- The chunk that is being filled: counted, and bounded once it has a unit.
abbrev IsOpen : ℕ → ℕ → TextChunk → Type 0
IsOpen lo hi c = (c.words ≡ sum_unit_words c.units) × (c.words ≤ hi + (lo - 1))

module _ (lo hi : ℕ) where
  add_unit-IsOpen :
      (c : TextChunk) (u : ChunkUnit)
      → u.words ≤ hi
      → IsOpen lo hi c
      → is_full lo hi c u ≡ false
      → IsOpen lo hi (add_unit c u)
  add_unit-IsOpen c u h o f =
      ground (arith, sum_unit_words-append c.units u, is_nil-sum_unit_words c.units)

  last-IsChunk :
      (c : TextChunk) → IsOpen lo hi c → All (IsChunk lo hi) (if is_nil c.units then [] else c ∷ [])
  last-IsChunk c o = elim (Bool-cases (is_nil c.units)) [
    | inl e ↦ rw e tt
    | inr e ↦ rw e (record { not_nil = e; counted = o.0; bounded = o.1 }, tt)
  ]

  no_units-IsOpen : (u : ChunkUnit) → u.words ≤ hi → IsOpen lo hi (add_unit no_units u)
  unfolding sum_unit_words
  no_units-IsOpen u h = omega arith

  chunks_from-IsChunk :
      (c : TextChunk) (us : List ChunkUnit)
      → All (λ u. u.words ≤ hi) us
      → IsOpen lo hi c
      → All (IsChunk lo hi) (chunks_from lo hi c us)
  unfolding chunks_from
  chunks_from-IsChunk c [] h o = last-IsChunk c o
  chunks_from-IsChunk c (u ∷ us) h o = elim (Bool-cases (is_full lo hi c u)) [
    | inl e ↦
        rw (e, chunks_from)
          (
            record { not_nil = ground arith; counted = o.0; bounded = o.1 },
            chunks_from-IsChunk (add_unit no_units u) us h.1 (no_units-IsOpen u h.0),
          )
    | inr e ↦
        rw (e, chunks_from)
          (chunks_from-IsChunk (add_unit c u) us h.1 (add_unit-IsOpen c u h.0 o e))
  ]

  chunks_from-IsFilled :
      (c : TextChunk) (us : List ChunkUnit) → IsFilled lo (chunks_from lo hi c us)
  unfolding chunks_from
  chunks_from-IsFilled c [] = elim (Bool-cases (is_nil c.units)) [
    | inl e ↦ rw e tt
    | inr e ↦ rw e tt
  ]
  chunks_from-IsFilled c (u ∷ us) = elim (Bool-cases (is_full lo hi c u)) [
    | inl e ↦
        rw (e, chunks_from)
          (IsFilled-cons lo c _ (ground arith) (chunks_from-IsFilled (add_unit no_units u) us))
    | inr e ↦ rw (e, chunks_from) (chunks_from-IsFilled (add_unit c u) us)
  ]

-- For units of at most `max_words` words each, every chunk has a unit, has its words counted right, and
-- passes `max_words` by less than `min_words`; every chunk but the last has `min_words`.
pub build_text_chunks-IsChunk :
    (units : List ChunkUnit) (min_words max_words : ℕ)
    → All (λ u. u.words ≤ max_words) units
    → All (IsChunk min_words max_words) (build_text_chunks units min_words max_words)
      × IsFilled min_words (build_text_chunks units min_words max_words)
unfolding build_text_chunks
build_text_chunks-IsChunk [] lo hi h = (tt, tt)
build_text_chunks-IsChunk (u ∷ us) lo hi h = (
  chunks_from-IsChunk lo hi no_units (u ∷ us) h (unfold sum_unit_words in omega arith),
  chunks_from-IsFilled lo hi no_units (u ∷ us),
)

-- The maximum is no hard cap: two units of which the first is below the minimum share a chunk, however
-- many words they have together.
pub build_text_chunks-over_max :
    (a b : ChunkUnit) (min_words max_words : ℕ)
    → a.words < min_words
    → max_words < a.words + b.words
    → build_text_chunks (a ∷ b ∷ []) min_words max_words
      ≡ record { units = a ∷ b ∷ []; words = a.words + b.words } ∷ []
unfolding build_text_chunks chunks_from
build_text_chunks-over_max a b lo hi p q = ground arith
