-- ===== src/Examples/Chunks.antt =====
-- The chunks of small documents.
use lok_lingo.Prelude.{ℕ, ◌≡◌, refl, List, [], ◌∷◌, map, some, All, concat, arith}
use lok_lingo.Go.Text.{Text, codes, fields, join, is_space, trim_space, split}
use lok_lingo.Jobs.Chunks.{ChunkUnit, build_chunk_units, build_text_chunks, split_by_word_budget}
use lok_lingo.Jobs.Chunks.Budget.{IsDocument, build_chunk_units-IsDocument}
use lok_lingo.Jobs.Chunks.Grouping.{
  IsChunk, IsFilled, units_of, build_text_chunks-concat, build_text_chunks-IsChunk,
}

fields_test : fields (codes "  a bc  d ") ≡ codes "a" ∷ codes "bc" ∷ codes "d" ∷ []
unfolding fields is_space
fields_test = refl

split_test : split (codes "a--b-c--") (codes "--") ≡ codes "a" ∷ codes "b-c" ∷ [] ∷ []
unfolding split
split_test = refl

budget_test :
    split_by_word_budget (codes " one two  three ") 2 ≡ some (codes "one two" ∷ codes "three" ∷ [])
unfolding split_by_word_budget fields trim_space join is_space
budget_test = refl

abbrev two_pages : List Text
two_pages = codes "one two three" ∷ codes "four" ∷ []

build_chunk_units-IsDocument_example :
    (blocks : List (List ChunkUnit)) × (build_chunk_units two_pages 2 ≡ some (concat blocks))
    × IsDocument 2 0 two_pages blocks
build_chunk_units-IsDocument_example = build_chunk_units-IsDocument two_pages 2 (omega arith)

abbrev sized : ℕ → ChunkUnit
sized n = record { page_index = 0; text = []; words = n }

abbrev some_units : List ChunkUnit
some_units = sized 3 ∷ sized 4 ∷ sized 5 ∷ []

build_text_chunks_test :
    map units_of (build_text_chunks some_units 4 8) ≡ (sized 3 ∷ sized 4 ∷ []) ∷ (sized 5 ∷ []) ∷ []
unfolding build_text_chunks
build_text_chunks_test = refl

build_text_chunks-concat_example :
    concat (map units_of (build_text_chunks some_units 4 8)) ≡ some_units
build_text_chunks-concat_example = build_text_chunks-concat some_units 4 8

build_text_chunks-IsChunk_example :
    All (IsChunk 4 8) (build_text_chunks some_units 4 8)
    × IsFilled 4 (build_text_chunks some_units 4 8)
build_text_chunks-IsChunk_example = build_text_chunks-IsChunk some_units 4 8 (omega arith)
