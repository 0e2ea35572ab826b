-- ===== src/Jobs/Process/Document.antt =====
-- The translation of a text or of the pages of a PDF in Worker.process (backend/jobs/worker.go).
pub mod Chunk
use lok_lingo.Prelude.{
  ℕ, zero, suc, ◌+◌, ◌-◌, Bool, true, false, ◌&&◌, ◌||◌, not, List, [], ◌∷◌, ◌++◌, map, Option,
  none, some, ltb, ◌==◌, if◌then◌else◌, length, take, drop, concat, any, get_elem?,
}
use lok_lingo.Go.Text.{Text, codes, trim_space, join}
use lok_lingo.Go.Failure.{GoError, Result, ok, err}
use lok_lingo.Go.Number.{decimal}
use lok_lingo.Jobs.Job.{
  Job, JobType, pdf_job, completed, failed, processing, translating, stage_completed,
}
use lok_lingo.Jobs.Chunks.{
  ChunkUnit, TextChunk, build_chunk_units, build_text_chunks, reduce_chunk_word_range, is_nil,
}
use lok_lingo.Jobs.Chunks.Grouping.{units_of}
use lok_lingo.Jobs.Translate.{translate_chunk, Outcome, returns, panics, runs_out}
use lok_lingo.Jobs.Translate.Retry.{is_done}
use lok_lingo.Jobs.Options.{Tuning}
use lok_lingo.Jobs.Process.State.{
  Outside, Run, CheckpointStore, translation_started, chunk_started, chunk_completed,
  export_started, export_completed, inc_degraded_mode, inc_chunk_checkpoint_hit,
  inc_chunk_checkpoint_miss, inc_chunk_checkpoint_persist_failure, and_then, with_job, with_world,
  emit, save, hear, set_job_stage,
}
use lok_lingo.Jobs.Process.Document.Chunk.{
  PageResult, result_units, is_pdf, increment, count_units, zeros, same_count, key_parts, Progress,
  chunk_checkpoint_key, key_of, on_run, look_up_in, look_up_checkpoint, set_checkpoint, count_page,
  advance, settle, free_slot_of, translate_anew, run_chunk, run_batch,
}

-- in milliseconds
abbrev pub slow_chunk_threshold : ℕ
slow_chunk_threshold = 15000

abbrev pub batch_size : ℕ → ℕ → ℕ
batch_size concurrency chunks =
    let size : ℕ = if concurrency == 0 then 1 else concurrency in
    if ltb chunks size then chunks else size

-- Appends to the parts of a page; a page that is out of range is left out.
abbrev pub add_part : ℕ → Text → List (List Text) → List (List Text)
add_part i part [] = []
add_part zero part (ps ∷ pss) = (ps ++ part ∷ []) ∷ pss
add_part (suc i) part (ps ∷ pss) = ps ∷ add_part i part pss

unfoldable pub add_parts : List ChunkUnit → List (List Text) → List (List Text)
add_parts [] pss = pss
add_parts (u ∷ us) pss = add_parts us (add_part u.page_index u.text pss)

abbrev pub page_text : List Text → Text
page_text parts = trim_space (join parts (codes " "))

module _ (o : Outside) (ctx : o.rt.Ctx) where
  abbrev pub is_slow : PageResult → Bool
  is_slow r = ltb slow_chunk_threshold r.dur

  -- The range of the chunk sizes for the units that are left.
  abbrev pub next_range : List PageResult → List ChunkUnit → ℕ × ℕ → ℕ × ℕ
  next_range rs rest range =
      if any is_slow rs && not (is_nil rest) then reduce_chunk_word_range range.0 range.1 else range

  abbrev pub next_batch : ℕ → List TextChunk → List TextChunk
  next_batch concurrency chunks = take (batch_size concurrency (length chunks)) chunks

  abbrev pub left_over : List TextChunk → List ChunkUnit → List ChunkUnit
  left_over batch us = drop (length (concat (map units_of batch))) us

  -- The loop over the batches. The fuel is the number of units.
  unfoldable pub translate_units :
      ℕ → ℕ → List ℕ → ℕ × ℕ → List ChunkUnit → Progress o → Outcome (List PageResult × Progress o)
  translate_units fuel concurrency targets range [] d = returns ([], d)
  translate_units zero concurrency targets range (u ∷ us) d = runs_out
  translate_units (suc fuel) concurrency targets range (u ∷ us) d =
      let batch = next_batch concurrency (build_text_chunks (u ∷ us) range.0 range.1) in
      let rest = left_over batch (u ∷ us) in
      elim (is_nil batch) [
        | true ↦ returns ([], d)
        | false ↦ and_then (run_batch o ctx targets batch d) (λ q.
            and_then (translate_units fuel concurrency targets (next_range q.0 rest range) rest q.1)
              (λ p. returns (q.0 ++ p.0, p.1)))
      ]

  -- isUnrecoverableChunkError, for a context that is done or not
  abbrev pub is_unrecoverable : Bool → GoError → Bool
  is_unrecoverable done e = done || e.canceled

  -- The results are gathered page by page. The first error that cannot be passed over ends it; any other
  -- is counted, and its units stand in for their translation.
  unfoldable pub gather :
      Bool
      → List PageResult
      → List (List Text)
      → ℕ
      → Run o
      → (Option GoError × List (List Text) × ℕ) × Run o
  gather done [] parts degraded s = ((none, parts, degraded), s)
  gather done (r ∷ rs) parts degraded s = elim (r.error) [
    | none ↦ gather done rs (add_parts r.units parts) degraded s
    | some e ↦ elim (is_unrecoverable done e) [
      | true ↦ ((some e, parts, degraded), s)
      | false ↦ gather done rs (add_parts r.units parts) (degraded + 1) (emit o inc_degraded_mode s)
    ]
  ]

  abbrev pub completion_message : ℕ → Text
  completion_message zero = codes "Translation complete"
  completion_message (suc n) =
      codes "Translation complete with graceful fallback on "
      ++ (decimal (suc n) ++ codes " chunk(s)")

  abbrev pub with_translation : Text → ℕ → Job → Job
  with_translation translated degraded job = record job {
    stage = stage_completed;
    stage_message = completion_message degraded;
    stage_progress = 100;
    status = completed;
    translated_text = translated;
  }

  -- The translation is put into the cache; an error of that is only logged.
  abbrev pub cache_translation : Run o → Run o
  cache_translation s =
      let j = s.job in
      with_world o (o.set_cached j.text j.source j.target j.translated_text s.inner.world).1 s

  unfoldable pub conclude : Option GoError × List (List Text) × ℕ → Run o → Run o
  conclude (some e, parts, degraded) s =
      save o (with_job o (λ j. record j { status = failed; error_msg = e.message }) s)
  conclude (none, parts, degraded) s =
      let translated = join (map page_text parts) (codes "\n\n") in
      save o (
        cache_translation (
          emit o export_completed
            (with_job o (with_translation translated degraded) (emit o export_started s))))

  abbrev pub conclude_results : List Text → List PageResult × Progress o → Run o
  conclude_results pages (rs, d) =
      let s = d.run in
      let (out, s1) = gather (is_done o.rt ctx s.inner.world) rs (map (λ _. []) pages) 0 s in
      conclude out s1

  -- What follows when the text is not cached. Without units that are found the code does not end.
  unfoldable pub translate_pages : Tuning → ℕ → List Text → Run o → Outcome (Run o)
  translate_pages w concurrency pages s =
      let s1 =
        set_job_stage o translating (codes "Translating content...") 20
          (emit o translation_started (with_job o (λ j. record j { status = processing }) s)) in
      elim (build_chunk_units pages w.chunk_max_words) [
        | none ↦ runs_out
        | some units ↦
            let targets = count_units units (zeros pages) in
            and_then
              (translate_units (length units) concurrency targets
                (w.chunk_min_words, w.chunk_max_words) units
                (record { run = s1; unit_done = zeros pages }))
              (λ q. returns (conclude_results pages q))
      ]

  abbrev pub with_cached : Text → Job → Job
  with_cached cached job = record job {
    status = completed;
    translated_text = cached;
    processed_pages = (if is_pdf job.type then job.total_pages else job.processed_pages);
  }

  unfoldable pub translate_document : Tuning → ℕ → List Text → Run o → Outcome (Run o)
  translate_document w concurrency pages s =
      let (r, world) = o.get_cached s.job.text s.job.source s.job.target s.inner.world in
      elim r [
        | ok cached ↦ returns (save o (with_job o (with_cached cached) (with_world o world s)))
        | err e ↦ translate_pages w concurrency pages (with_world o world s)
      ]
