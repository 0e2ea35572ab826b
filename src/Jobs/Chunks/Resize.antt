-- ===== src/Jobs/Chunks/Resize.antt =====
-- The adaptive chunk size (reduceChunkWordRange in backend/jobs/worker.go).
use lok_lingo.Prelude.{ℕ, min, max, ◌*◌, ◌≤◌, ◌<◌, arith}
use lok_lingo.Jobs.Chunks.{reduce_chunk_word_range}

-- For a range with 0 < min ≤ max, the reduced range is a range again and is nowhere above the old one. Its
-- minimum is not below the old one or 40, whichever is smaller; its maximum is at most 4/5 of the old one,
-- or is the new minimum.
pub reduce_chunk_word_range_bounds :
    (min_words max_words : ℕ)
    → 0 < min_words
    → min_words ≤ max_words
    → let (new_min, new_max) = reduce_chunk_word_range min_words max_words in
      (0 < new_min)
      × (new_min ≤ new_max)
      × (new_min ≤ min_words)
      × (new_max ≤ max_words)
      × (min min_words 40 ≤ new_min)
      × (5 * new_max ≤ max (4 * max_words) (5 * new_min))
unfolding reduce_chunk_word_range
reduce_chunk_word_range_bounds min_words max_words p q = ground arith
