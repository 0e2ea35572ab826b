-- ===== src/Jobs/Process/State.antt =====
-- What Worker.process works with (backend/jobs/worker.go): the outside of a worker as a record of operations,
-- the job that it fills in, and the events that it reports, the newest first. Of an event only the name is
-- kept. A goroutine's whole work is one step here, and the stage changes that the translation service asks
-- for during a chunk are made at its end.
use lok_lingo.Prelude.{
  ℕ, Bool, true, false, List, [], ◌∷◌, ◌++◌, Option, none, some, ltb, if◌then◌else◌,
}
use lok_lingo.Go.Text.{Text, codes}
use lok_lingo.Go.Failure.{GoError, Result, ok, err}
use lok_lingo.Jobs.Job.{JobId, Job, Mode, layout, ocr_only, Stage, QueueStats, failed}
use lok_lingo.Overlay.Options.{OverlayOptions}
use lok_lingo.Jobs.Chunks.{ChunkUnit}
use lok_lingo.Jobs.Translate.Retry.{Runtime, RetryMetrics}
use lok_lingo.Jobs.Translate.{Outcome, returns, panics, runs_out}
use lok_lingo.Jobs.Translate.Retry as Retry
use lok_lingo.Jobs.Failures.{StoreApi}

pub data Event : Type 0 where
  ocr_started ocr_completed translation_started chunk_started chunk_completed : Event
  render_started render_completed export_started export_completed : Event
  job_failed job_completed : Event
  inc_ocr_low_confidence inc_degraded_mode inc_render_fallback : Event
  inc_chunk_checkpoint_hit inc_chunk_checkpoint_miss inc_chunk_checkpoint_persist_failure : Event
  inc_render_failure : Mode → Event  -- "fast" is the one of `overlay`

-- The parts of OCRRequestOptions that the worker sets.
pub record OcrRequestOptions : Type 0 where
  pub mode : Mode
  pub correction_enabled : Bool
  pub engine : Text

-- OCRTextBlock, with the confidence in ten-thousandths. `Place` is what is handed on to the renderer:
-- the box and the class of the region.
pub record OcrTextBlock (Place : Type 0) : Type 0 where
  pub text : Text
  pub confidence : ℕ
  pub place : Place

-- An OCR client over a world: the interfaces beyond the first that it satisfies are optional.
pub record OcrClient (Place World : Type 0) : Type 0 where
  pub extract_pages : Text → Text → World → Result (List Text) × World
  pub extract_pages_with_confidence : Option (Text → Text → World → Result (List Text × ℕ) × World)
  pub extract_pages_with_confidence_and_options :
      Option (Text → Text → OcrRequestOptions → World → Result (List Text × ℕ) × World)
  pub extract_image_blocks : Text → Text → World → Result (List (OcrTextBlock Place)) × World
  pub extract_image_blocks_with_options :
      Option (Text → Text → OcrRequestOptions → World → Result (List (OcrTextBlock Place)) × World)

-- The checkpoints of a store that keeps any; a checkpoint that is not there is `none`.
pub record CheckpointStore (World : Type 0) : Type 0 where
  pub get_chunk_checkpoint : JobId → Text → World → Result (Option (List ChunkUnit)) × World
  pub set_chunk_checkpoint : JobId → Text → List ChunkUnit → World → Result (Unit {0}) × World

-- A call of the StageNotifyFn: the stage, its message and the progress in percent.
pub record Notice : Type 0 where
  pub stage : Stage
  pub message : Text
  pub progress : ℕ

-- The outside of a worker.
pub record Outside : Type 1 where
  pub rt : Runtime
  pub Place : Type 0
  -- the store; the number is the UpdatedAt that the call leaves in the job
  pub update : Job → rt.World → ℕ × Result (Unit {0}) × rt.World
  pub queue_stats : Option (rt.World → Result QueueStats × rt.World)
  -- a text that is not cached is an error
  pub get_cached : Text → Text → Text → rt.World → Result Text × rt.World
  pub set_cached : Text → Text → Text → Text → rt.World → Result (Unit {0}) × rt.World
  pub checkpoints : Option (CheckpointStore rt.World)
  -- the SHA-256 of a text, in hexadecimal digits
  pub sha256_hex : Text → Text
  pub page_count : Text → rt.World → Result ℕ × rt.World
  pub extract_pages : Text → rt.World → Result (List Text) × rt.World
  pub ocr_client : Option (OcrClient Place rt.World)
  -- averageOCRBlockConfidence, a quotient of floating-point numbers
  pub average_confidence : List ℕ → ℕ
  -- %.2f
  pub show_confidence : ℕ → Text
  -- writeImagePassthroughOutput and DrawTextOnImageWithOptions, with the path that they write to
  pub write_image_passthrough_output : Text → rt.World → Result Text × rt.World
  pub draw_text_on_image :
      Text → List (Text × Place) → List Text → OverlayOptions → rt.World → Result Text × rt.World
  -- os.Remove, whose error is only logged
  pub remove_file : Text → rt.World → rt.World
  -- a slot of the job's semaphore, or the error of a context that is done
  pub take_slot : rt.Ctx → rt.World → Option GoError × rt.World
  pub free_slot : rt.World → rt.World
  -- the stage changes asked for since the last call
  pub notices : rt.World → List Notice × rt.World
  -- time.Now(), in milliseconds
  pub now : rt.World → ℕ

-- The store as the functions of Failures see it; `process` itself requeues nothing.
abbrev pub store_of : Outside → StoreApi
store_of o = record {
  World = o.rt.World;
  update = o.update;
  requeue = none;
  dead_letter = none;
  queue_stats = o.queue_stats;
  now = o.now;
}

-- The job as far as it is filled in, what its translation threads through, and the events.
pub record Run (o : Outside) : Type 0 where
  pub job : Job
  pub inner : Retry.State o.rt
  pub events : List Event

-- The next part of the code, unless the part before it panicked or ran out of fuel.
abbrev pub and_then : {A B : Type 0} → Outcome A → (A → Outcome B) → Outcome B
and_then (returns a) f = f a
and_then panics f = panics
and_then runs_out f = runs_out

abbrev pub low_ocr_confidence_threshold : ℕ
low_ocr_confidence_threshold = 7200

unfoldable pub should_enable_ocr_correction : Mode → Bool
should_enable_ocr_correction layout = true
should_enable_ocr_correction ocr_only = true
should_enable_ocr_correction _ = false

abbrev pub ocr_options : Mode → Text → OcrRequestOptions
ocr_options mode engine = record {
  mode = mode;
  correction_enabled = should_enable_ocr_correction mode;
  engine = engine;
}

module _ (o : Outside) where
  abbrev pub with_job : (Job → Job) → Run o → Run o
  with_job f s = record s { job = f s.job }

  abbrev pub with_world : o.rt.World → Run o → Run o
  with_world w s = record s { inner = record (s.inner) { world = w } }

  abbrev pub emit : Event → Run o → Run o
  emit e s = record s { events = e ∷ s.events }

  -- w.store.Update(ctx, job), whose error is only logged
  abbrev pub save : Run o → Run o
  save s =
      let (t, r, w) = o.update s.job s.inner.world in
      record s { job = record (s.job) { updated_at = t }; inner = record (s.inner) { world = w } }

  -- The job fails with the message.
  abbrev pub fail_with : Text → Run o → Run o
  fail_with message s = save (with_job (λ j. record j { status = failed; error_msg = message }) s)

  unfoldable pub set_job_stage : Stage → Text → ℕ → Run o → Run o
  set_job_stage stage message progress s = save (
      with_job (λ j. record j { stage = stage; stage_message = message; stage_progress = progress })
        s)

  -- The function that stageNotifierFor returns.
  unfoldable pub notify_stage : Notice → Run o → Run o
  notify_stage n s = save (
      with_job
        (λ j. record j {
          stage = n.stage;
          stage_message = n.message;
          stage_progress = (if ltb 0 n.progress then n.progress else j.stage_progress);
        })
        s)

  unfoldable pub notify_all : List Notice → Run o → Run o
  notify_all [] s = s
  notify_all (n ∷ ns) s = notify_all ns (notify_stage n s)

  unfoldable pub hear : Run o → Run o
  hear s = let (ns, w) = o.notices s.inner.world in notify_all ns (with_world w s)

  -- A recognition with a low confidence leaves a warning.
  unfoldable pub warn_of_confidence : Text → Run o → Run o
  warn_of_confidence advice s =
      let c = s.job.ocr_confidence in
      if ltb 0 c
      then (if ltb c low_ocr_confidence_threshold
          then emit inc_ocr_low_confidence (
              with_job
                (λ j. record j {
                  warnings =
                      j.warnings
                      ++ (codes "OCR confidence is low (" ++ (o.show_confidence c ++ advice)) ∷ [];
                })
                s)
          else s)
      else s

  -- extractOCRPagesAndConfidence: the client's richest interface is used.
  unfoldable pub extract_ocr_pages_and_confidence :
      OcrClient o.Place o.rt.World
      → Text
      → Text
      → Text
      → Mode
      → o.rt.World
      → Result (List Text × ℕ) × o.rt.World
  extract_ocr_pages_and_confidence client file_path lang engine mode w =
      elim (client.extract_pages_with_confidence_and_options) [
        | some extract ↦ extract file_path lang (ocr_options mode engine) w
        | none ↦ elim (client.extract_pages_with_confidence) [
          | some extract ↦ extract file_path lang w
          | none ↦
              let (r, w') = client.extract_pages file_path lang w in
              elim r [ ok pages ↦ (ok (pages, 0), w') | err e ↦ (err e, w') ]
        ]
      ]

  -- The blocks of an image, by the richer interface if the client has it.
  unfoldable pub extract_blocks :
      OcrClient o.Place o.rt.World
      → Text
      → Text
      → OcrRequestOptions
      → o.rt.World
      → Result (List (OcrTextBlock o.Place)) × o.rt.World
  extract_blocks client file_path lang options w = elim (client.extract_image_blocks_with_options) [
    | some extract ↦ extract file_path lang options w
    | none ↦ client.extract_image_blocks file_path lang w
  ]
