-- ===== src/Jobs/Process/Ends.antt =====
-- Every run of Worker.process ends (backend/jobs/worker.go).
pub mod Images
pub mod Whole
use lok_lingo.Prelude.{
  ℕ, zero, suc, ◌<◌, ◌≡◌, refl, ap, inl, inr, Bool, true, false, List, [], ◌∷◌, All, Option, none,
  some, concat, arith, Bool-cases, Option-cases, length,
}
use lok_lingo.Go.Text.{Text, is_empty}
use lok_lingo.Go.Failure.{GoError, Result, ok, err, Result-cases}
use lok_lingo.Jobs.Job.{
  Job, JobType, text_job, pdf_job, image_job, Mode, unset, overlay, layout, ocr_only, Status,
  pending, processing, completed, failed,
}
use lok_lingo.Jobs.Options.{Tuning}
use lok_lingo.Jobs.Chunks.{ChunkUnit, TextChunk, build_chunk_units, is_nil}
use lok_lingo.Jobs.Chunks.Budget.{build_chunk_units-IsDocument}
use lok_lingo.Jobs.Chunks.Filled.{HasUnits, build_text_chunks-HasUnits}
use lok_lingo.Jobs.Translate.{returns}
use lok_lingo.Jobs.Failures.{removes_source}
use lok_lingo.Jobs.Process.{
  clean_up, report_end, process, finish, start, run_job, run_pipeline, select_pipeline,
  process_layout_mode,
}
use lok_lingo.Jobs.Process.State.{
  Outside, Run, Event, job_failed, job_completed, OcrTextBlock, emit, chunk_started, with_world,
}
use lok_lingo.Jobs.Process.Document.{conclude, translate_pages, translate_document}
use lok_lingo.Jobs.Process.Extract.{
  use_text, is_ocr_only, extract_or_recognise, Step, stops, goes_on, recognise_only, fall_back,
  check_pages, extract_pdf,
}
use lok_lingo.Jobs.Process.Answers.{Holds, and_then-Holds, IsAnswering, translate_chunk-returns}
use lok_lingo.Jobs.Process.Batches.{translate_units-AllDone}
use lok_lingo.Jobs.Process.Picture.{
  finish_gathered, is_ocr_only_mode, finish_rendered, recognise_image, finish_recognised_image,
  translate_image_chunk, translate_image_chunks, pass_through, finish_without_text, finish_image,
  conclude_image, translate_chunks_of, translate_segments, translate_blocks, process_image,
}
use lok_lingo.Jobs.Process.Picture.Texts.{Assembled, segment_text, segments}
use lok_lingo.Jobs.Process.Picture.Rendering.{render, announce_rendering}

abbrev pub has_ended : Status → Bool
has_ended completed = true
has_ended failed = true
has_ended _ = false

abbrev pub Ended : (o : Outside) → Run o → Type 0
Ended o s = has_ended s.job.status ≡ true

-- A step that stops has ended.
abbrev pub StopsEnded : (o : Outside) → Step (List Text) (Run o) → Type 0
StopsEnded o (stops s) = Ended o s
StopsEnded o (goes_on pages s) = Unit

-- The end of the job is the newest event.
abbrev pub reports_end : Status → List Event → Bool
reports_end failed (job_failed ∷ es) = true
reports_end completed (job_completed ∷ es) = true
reports_end _ _ = false

-- Any outside answers for the relation that always holds.
any_answer : (o : Outside) (ctx : o.rt.Ctx) → IsAnswering o ctx (λ _ _. Unit)
any_answer o ctx = record {
  same = λ _. tt;
  joined = λ _ _ _ _ _ _. tt;
  translated = λ _ _ _ _ _ _. tt;
  kept = λ _ _ _ _. tt;
}

module _ (o : Outside) (ctx : o.rt.Ctx) where
  conclude-Ended :
      (t : Option GoError × List (List Text) × ℕ) (s : Run o) → Ended o (conclude o ctx t s)
  unfolding conclude
  conclude-Ended (some e, parts, n) s = refl
  conclude-Ended (none, parts, n) s = refl

  pub units_found :
      (pages : List Text) (max_words : ℕ)
      → 0 < max_words
      → (us : List ChunkUnit) × (build_chunk_units pages max_words ≡ some us)
  units_found pages max_words h =
      let (blocks, e, d) = build_chunk_units-IsDocument pages max_words h in (concat blocks, e)

  translate_pages-Ended :
      (w : Tuning) (concurrency : ℕ) (pages : List Text) (s : Run o)
      → 0 < w.chunk_max_words
      → Holds (Ended o) (translate_pages o ctx w concurrency pages s)
  unfolding translate_pages
  translate_pages-Ended w concurrency pages s h =
      let (us, e) = units_found pages w.chunk_max_words h in
      rw (e, translate_pages)
        (and_then-Holds (λ _. Unit) (Ended o) _ _
          (translate_units-AllDone o ctx (λ _ _. Unit) (any_answer o ctx) (length us) concurrency _
            _ us _ (omega arith))
          (λ q k. conclude-Ended _ _))

  pub translate_document-Ended :
      (w : Tuning) (concurrency : ℕ) (pages : List Text) (s : Run o)
      → 0 < w.chunk_max_words
      → Holds (Ended o) (translate_document o ctx w concurrency pages s)
  unfolding translate_document
  translate_document-Ended w concurrency pages s h =
      elim (Result-cases (o.get_cached s.job.text s.job.source s.job.target s.inner.world).0) [
        | inl (t, e) ↦ rw (e, translate_document) refl
        | inr (x, e) ↦ rw (e, translate_document) (translate_pages-Ended w concurrency pages _ h)
      ]

  recognise_only-Ended : (s : Run o) → Ended o (recognise_only o s)
  unfolding recognise_only
  recognise_only-Ended s = ground arith

  fall_back-StopsEnded : (reason : Text) (s : Run o) → StopsEnded o (fall_back o reason s)
  unfolding fall_back
  fall_back-StopsEnded reason s = ground arith

  use_text-StopsEnded : (q : Result (List Text) × Text) (s : Run o) → StopsEnded o (use_text o q s)
  use_text-StopsEnded (err e, reason) s = fall_back-StopsEnded reason s
  use_text-StopsEnded (ok pages, reason) s = elim (Bool-cases (is_nil pages)) [
    | inl e ↦ rw e (fall_back-StopsEnded reason s)
    | inr e ↦ rw e tt
  ]

  extract_or_recognise-StopsEnded : (s : Run o) → StopsEnded o (extract_or_recognise o s)
  extract_or_recognise-StopsEnded s = elim (Bool-cases (is_ocr_only o s)) [
    | inl e ↦ rw e (recognise_only-Ended s)
    | inr e ↦ rw e (use_text-StopsEnded _ _)
  ]

  -- A check that stops has ended.
  abbrev CheckEnded : Step (Unit {0}) (Run o) → Type 0
  CheckEnded (stops s) = Ended o s
  CheckEnded (goes_on u s) = Unit

  check_pages-CheckEnded : (limit : ℕ) (s : Run o) → CheckEnded (check_pages o limit s)
  unfolding check_pages
  check_pages-CheckEnded zero s = tt
  check_pages-CheckEnded (suc limit) s = ground arith

  then_extract :
      (c : Step (Unit {0}) (Run o))
      → CheckEnded c
      → StopsEnded o (elim c [ stops s1 ↦ stops s1 | goes_on _ s1 ↦ extract_or_recognise o s1 ])
  then_extract (stops s) h = h
  then_extract (goes_on u s) h = extract_or_recognise-StopsEnded s

  pub extract_pdf-StopsEnded : (limit : ℕ) (s : Run o) → StopsEnded o (extract_pdf o limit s)
  unfolding extract_pdf
  extract_pdf-StopsEnded limit s = elim (Bool-cases (is_empty s.job.file_path)) [
    | inl e ↦ rw e refl
    | inr e ↦ rw e (then_extract (check_pages o limit s) (check_pages-CheckEnded limit s))
  ]
