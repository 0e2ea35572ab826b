-- ===== src/Jobs/Chunks/Filled.antt =====
-- No chunk of buildTextChunks is without units.
use lok_lingo.Prelude.{
  ℕ, ◌+◌, ◌<◌, ◌≡◌, refl, ap, inl, inr, true, ◌&&◌, not, List, [], ◌∷◌, All, arith, Bool-cases,
  if◌then◌else◌, length, leb, ltb,
}
use lok_lingo.Jobs.Chunks.{
  ChunkUnit, TextChunk, add_unit, no_units, is_nil, is_full, chunks_from, build_text_chunks,
}

abbrev pub HasUnits : TextChunk → Type 0
HasUnits c = 0 < length c.units

last-HasUnits : (c : TextChunk) → All HasUnits (if is_nil c.units then [] else c ∷ [])
last-HasUnits c = go c.units c refl
  where
    go :
        (us : List ChunkUnit) (d : TextChunk)
        → d.units ≡ us
        → All HasUnits (if is_nil us then [] else d ∷ [])
    go [] d e = tt
    go (u ∷ us) d e = (omega (arith, ap (length {0}) e), tt)

is_full-HasUnits :
    (lo hi : ℕ) (c : TextChunk) (u : ChunkUnit) → is_full lo hi c u ≡ true → HasUnits c
is_full-HasUnits lo hi c u e = go c.units c refl e
  where
    go :
        (us : List ChunkUnit) (d : TextChunk)
        → d.units ≡ us
        → (not (is_nil us) && leb lo d.words && ltb hi (d.words + u.words)) ≡ true
        → HasUnits d
    go [] d f e = absurd (cc)
    go (v ∷ vs) d f e = omega (arith, ap (length {0}) f)

chunks_from-HasUnits :
    (lo hi : ℕ) (c : TextChunk) (us : List ChunkUnit) → All HasUnits (chunks_from lo hi c us)
unfolding chunks_from
chunks_from-HasUnits lo hi c [] = last-HasUnits c
chunks_from-HasUnits lo hi c (u ∷ us) = elim (Bool-cases (is_full lo hi c u)) [
  | inl e ↦
      rw (e, chunks_from)
        (is_full-HasUnits lo hi c u e, chunks_from-HasUnits lo hi (add_unit no_units u) us)
  | inr e ↦ rw (e, chunks_from) (chunks_from-HasUnits lo hi (add_unit c u) us)
]

-- Every chunk has a unit, whatever the sizes are.
pub build_text_chunks-HasUnits :
    (units : List ChunkUnit) (lo hi : ℕ) → All HasUnits (build_text_chunks units lo hi)
unfolding build_text_chunks
build_text_chunks-HasUnits [] lo hi = tt
build_text_chunks-HasUnits (u ∷ us) lo hi = chunks_from-HasUnits lo hi no_units (u ∷ us)
