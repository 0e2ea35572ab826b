-- ===== src/Jobs/Chunks.antt =====
-- Chunks of a document (backend/jobs/worker.go): pages are cut into units of at most `max_words`
-- words, and units are grouped into the chunks that are translated by one call each.
pub mod Budget
pub mod Grouping
pub mod Filled
pub mod Resize
use lok_lingo.Prelude.{
  ℕ, zero, suc, ◌+◌, ◌*◌, ◌/◌, Bool, true, false, ◌&&◌, not, List, [], ◌∷◌, ◌++◌, map, Option, none,
  some, leb, ltb, ◌==◌, if◌then◌else◌, length, take, drop,
}
use lok_lingo.Go.Text.{Text, codes, is_empty, trim_space, fields, join}

pub record ChunkUnit : Type 0 where
  pub page_index : ℕ
  pub text : Text
  pub words : ℕ

pub record TextChunk : Type 0 where
  pub units : List ChunkUnit
  pub words : ℕ

-- `none`: the program does not terminate
infixl 5 ◌>>=◌
abbrev pub ◌>>=◌ {ℓ κ} : {A : Type ℓ} {B : Type κ} → Option A → (A → Option B) → Option B
none >>= f = none
some a >>= f = f a

-- The loop of splitByWordBudget over the words left. A step of 0 makes no progress.
unfoldable pub windows : ℕ → ℕ → List Text → Option (List Text)
windows fuel max_words [] = some []
windows zero max_words (w ∷ ws) = none
windows (suc fuel) max_words (w ∷ ws) = do
  parts ← windows fuel max_words (drop max_words (w ∷ ws))
  some (join (take max_words (w ∷ ws)) (codes " ") ∷ parts)

unfoldable pub split_by_word_budget : Text → ℕ → Option (List Text)
unfolding windows
split_by_word_budget text max_words =
    if is_empty (trim_space text)
    then some []
    else let words = fields text in
      if leb (length words) max_words
      then some (join words (codes " ") ∷ [])
      else windows (length words) max_words words

abbrev pub unit_of : ℕ → Text → ChunkUnit
unit_of page_index part = record {
  page_index = page_index;
  text = part;
  words = length (fields part);
}

unfoldable pub units_from : ℕ → List Text → ℕ → Option (List ChunkUnit)
units_from page_index [] max_words = some []
units_from page_index (page ∷ pages) max_words = do
  parts ← split_by_word_budget page max_words
  rest ← units_from (suc page_index) pages max_words
  some (map (unit_of page_index) parts ++ rest)

unfoldable pub build_chunk_units : List Text → ℕ → Option (List ChunkUnit)
unfolding units_from
build_chunk_units pages max_words = units_from 0 pages max_words

abbrev pub is_nil {ℓ} : {A : Type ℓ} → List A → Bool
is_nil [] = true
is_nil (x ∷ xs) = false

abbrev pub no_units : TextChunk
no_units = record { units = []; words = 0 }

abbrev pub add_unit : TextChunk → ChunkUnit → TextChunk
add_unit current unit = record {
  units = current.units ++ unit ∷ [];
  words = current.words + unit.words;
}

-- The chunk is full: it has its minimum, and the unit would take it past the maximum.
abbrev pub is_full : ℕ → ℕ → TextChunk → ChunkUnit → Bool
is_full min_words max_words current unit =
    not (is_nil current.units)
    && leb min_words current.words
    && ltb max_words (current.words + unit.words)

-- The loop of buildTextChunks; the chunks finished so far stand before the result.
unfoldable pub chunks_from : ℕ → ℕ → TextChunk → List ChunkUnit → List TextChunk
chunks_from min_words max_words current [] = if is_nil current.units then [] else current ∷ []
chunks_from min_words max_words current (unit ∷ units) =
    elim (is_full min_words max_words current unit) [
      | true ↦ current ∷ chunks_from min_words max_words (add_unit no_units unit) units
      | false ↦ chunks_from min_words max_words (add_unit current unit) units
    ]

unfoldable pub build_text_chunks : List ChunkUnit → ℕ → ℕ → List TextChunk
unfolding chunks_from
build_text_chunks [] min_words max_words = []
build_text_chunks (unit ∷ units) min_words max_words =
    chunks_from min_words max_words no_units (unit ∷ units)

unfoldable pub sum_unit_words : List ChunkUnit → ℕ
sum_unit_words [] = 0
sum_unit_words (unit ∷ units) = unit.words + sum_unit_words units

abbrev pub min_adaptive_chunk_words_floor : ℕ
min_adaptive_chunk_words_floor = 40

-- reduceChunkWordRange. int(float64(n) * 0.8) is n * 4 / 5 for every n below 2 ^ 50: the float64
-- nearest to 0.8 lies above it by less than 2 ^ -54.
unfoldable pub reduce_chunk_word_range : ℕ → ℕ → ℕ × ℕ
reduce_chunk_word_range min_words max_words =
    let lo : ℕ = if min_words == 0 then min_adaptive_chunk_words_floor else min_words in
    let hi : ℕ = if ltb max_words lo then lo else max_words in
    let raised : ℕ =
      if ltb (lo * 4 / 5) min_adaptive_chunk_words_floor
      then min_adaptive_chunk_words_floor
      else lo * 4 / 5 in
    let new_min : ℕ = if ltb lo raised then lo else raised in
    (new_min, if ltb (hi * 4 / 5) new_min then new_min else hi * 4 / 5)
