-- ===== src/Jobs/Options.antt =====
-- The tuning of a worker (WorkerOption and NewWorker of backend/jobs/worker.go).
use lok_lingo.Prelude.{ℕ, zero, suc, ◌<◌, ◌≤◌, List, [], ◌∷◌, ltb, if◌then◌else◌, arith}
use lok_lingo.Prelude.Int.{ℤ, pos, negsuc}

-- The numbers of a Worker; the slots are the capacity of globalLLMSem.
pub record Tuning : Type 0 where
  pub max_pdf_pages : ℕ
  pub translate_concurrency : ℕ
  pub llm_slots : ℕ
  pub chunk_min_words : ℕ
  pub chunk_max_words : ℕ

pub data WorkerOption : Type 0 where
  with_translate_concurrency : ℤ → WorkerOption
  with_pdf_chunk_word_range : ℤ → ℤ → WorkerOption
  with_max_llm_concurrency : ℤ → WorkerOption

-- if n > 0 { old = n }
abbrev pub if_positive : ℤ → ℕ → ℕ
if_positive (pos zero) old = old
if_positive (pos (suc n)) old = suc n
if_positive (negsuc n) old = old

-- A range whose maximum is below its minimum has its maximum raised.
abbrev pub raised : Tuning → Tuning
raised w =
    if ltb w.chunk_max_words w.chunk_min_words
    then record w { chunk_max_words = w.chunk_min_words }
    else w

unfoldable pub apply : WorkerOption → Tuning → Tuning
apply (with_translate_concurrency n) w = record w {
  translate_concurrency = if_positive n w.translate_concurrency;
}
apply (with_pdf_chunk_word_range min_words max_words) w = raised (record w {
  chunk_min_words = if_positive min_words w.chunk_min_words;
  chunk_max_words = if_positive max_words w.chunk_max_words;
})
apply (with_max_llm_concurrency n) w = record w { llm_slots = if_positive n w.llm_slots }

abbrev pub defaults : ℤ → Tuning
defaults max_pdf_pages = record {
  max_pdf_pages = if_positive max_pdf_pages 300;
  translate_concurrency = 3;
  llm_slots = 10;
  chunk_min_words = 80;
  chunk_max_words = 150;
}

abbrev pub apply_all : List WorkerOption → Tuning → Tuning
apply_all [] w = w
apply_all (o ∷ os) w = apply_all os (apply o w)

unfoldable pub new_worker : ℤ → List WorkerOption → Tuning
new_worker max_pdf_pages opts = apply_all opts (defaults max_pdf_pages)

-- A worker that can make progress: it has pages, tasks and slots, and a range of chunk sizes.
pub record IsUsable (w : Tuning) : Type 0 where
  pub pages : 0 < w.max_pdf_pages
  pub tasks : 0 < w.translate_concurrency
  pub slots : 0 < w.llm_slots
  pub minimum : 0 < w.chunk_min_words
  pub ordered : w.chunk_min_words ≤ w.chunk_max_words

if_positive-positive : (n : ℤ) (old : ℕ) → 0 < old → 0 < if_positive n old
if_positive-positive (pos zero) old h = h
if_positive-positive (pos (suc n)) old h = omega arith
if_positive-positive (negsuc n) old h = h

raised-IsUsable :
    (w : Tuning)
    → 0 < w.max_pdf_pages
    → 0 < w.translate_concurrency
    → 0 < w.llm_slots
    → 0 < w.chunk_min_words
    → IsUsable (raised w)
raised-IsUsable w a b c d = record {
  pages = ground (arith, a);
  tasks = ground (arith, b);
  slots = ground (arith, c);
  minimum = ground (arith, d);
  ordered = ground arith;
}

apply-IsUsable : (o : WorkerOption) (w : Tuning) → IsUsable w → IsUsable (apply o w)
unfolding apply
apply-IsUsable (with_translate_concurrency n) w h = record {
  pages = h.pages;
  tasks = if_positive-positive n w.translate_concurrency h.tasks;
  slots = h.slots;
  minimum = h.minimum;
  ordered = h.ordered;
}
apply-IsUsable (with_pdf_chunk_word_range min_words max_words) w h =
    raised-IsUsable _ h.pages h.tasks h.slots
      (if_positive-positive min_words w.chunk_min_words h.minimum)
apply-IsUsable (with_max_llm_concurrency n) w h = record {
  pages = h.pages;
  tasks = h.tasks;
  slots = if_positive-positive n w.llm_slots h.slots;
  minimum = h.minimum;
  ordered = h.ordered;
}

apply_all-IsUsable : (os : List WorkerOption) (w : Tuning) → IsUsable w → IsUsable (apply_all os w)
apply_all-IsUsable [] w h = h
apply_all-IsUsable (o ∷ os) w h = apply_all-IsUsable os (apply o w) (apply-IsUsable o w h)

-- Whatever the page limit and the options, a new worker has a positive page limit, at least one task and one slot, and a range of chunk
-- sizes with a positive minimum that is not over its maximum.
pub new_worker-IsUsable :
    (max_pdf_pages : ℤ) (opts : List WorkerOption) → IsUsable (new_worker max_pdf_pages opts)
unfolding new_worker
new_worker-IsUsable max_pdf_pages opts = apply_all-IsUsable opts (defaults max_pdf_pages) (record {
  pages = if_positive-positive max_pdf_pages 300 (omega arith);
  tasks = omega arith;
  slots = omega arith;
  minimum = omega arith;
  ordered = omega arith;
})
