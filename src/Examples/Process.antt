-- ===== src/Examples/Process.antt =====
-- A worker without OCR that keeps nothing, over a service that answers from a list or not at all
-- (backend/jobs/worker.go).
use lok_lingo.Prelude.{ℕ, ◌≡◌, refl, ap, ◌∙◌, ◌⊎◌, true, List, [], ◌∷◌, Option, none, some, arith}
use lok_lingo.Go.Text.{trim_space, join, Text, codes, fields, is_space}
use lok_lingo.Go.Failure.{Result, ok, err}
use lok_lingo.Go.Spaces.{words_of}
use lok_lingo.Jobs.Process.{run_job, start, select_pipeline, finish}
use lok_lingo.Jobs.Process.Document.{translate_pages, translate_units, gather, add_parts, conclude}
use lok_lingo.Jobs.Process.Document.Chunk.{
  run_batch, run_chunk, look_up_checkpoint, look_up_in, translate_anew, settle, set_checkpoint,
  count_units, advance, chunk_checkpoint_key,
}
use lok_lingo.Jobs.Process.State.{set_job_stage, hear, notify_all}
use lok_lingo.Jobs.Chunks.{split_by_word_budget, build_text_chunks}
use lok_lingo.Jobs.Failures.{effective_translate_concurrency, removes_source}
use lok_lingo.Jobs.Translate.{translate_chunk, translate_single, translate_joined, use_answer}
use lok_lingo.Jobs.Translate.Retry.{translate_with_chunk_timeout, translate_with_retry, retry_from}
use lok_lingo.Jobs.Job.{Job, JobId, text_job, completed, failed}
use lok_lingo.Jobs.Options.{Tuning}
use lok_lingo.Jobs.Chunks.{ChunkUnit, build_chunk_units}
use lok_lingo.Jobs.Translate.Retry.{Runtime, State}
use lok_lingo.Jobs.Translate.{texts_of, Outcome, returns, panics, runs_out}
use lok_lingo.Jobs.Translate.Alignment.{pages_of}
use lok_lingo.Jobs.Process.{process}
use lok_lingo.Jobs.Process.State.{
  Outside, Run, CheckpointStore, Event, job_completed, export_started, export_completed,
  chunk_started, chunk_completed, inc_chunk_checkpoint_miss, translation_started,
}
use lok_lingo.Jobs.Process.Document.{translate_document}
use lok_lingo.Jobs.Process.Document.Chunk.{chunk_checkpoint_key}
use lok_lingo.Jobs.Process.Answers.{Holds}
use lok_lingo.Jobs.Process.Content.{IsTranslated}
use lok_lingo.Jobs.Process.Ends.{has_ended, reports_end}
use lok_lingo.Jobs.Process.Frame.{request_of}
use lok_lingo.Jobs.Process.Sources.{IsSpent, process-IsSpent}
use lok_lingo.Jobs.Process.Frame.Whole.{process-request_of}
use lok_lingo.Jobs.Process.Ends.Whole.{process-reports}
use lok_lingo.Jobs.Process.Outcomes.{
  HasAlignedCheckpoints, aligned_answer, translate_document-IsTranslated,
  translate_document-keeps_words,
}
use lok_lingo.Jobs.Store.{World, update, queue_stats, single, ◌>>=◌, wrapped, pure}
use lok_lingo.Jobs.Process.Extract.{extract_pdf, check_pages, extract_text, fall_back}
use lok_lingo.Jobs.Loop.{work_on}
use lok_lingo.Jobs.Loop.Waiting.{IsWaiting}
use lok_lingo.Jobs.Store.Texts.{clear_chunk_checkpoints}
use lok_lingo.Jobs.Store.Texts.Checkpoints.{clear_chunk_checkpoints-view}
use lok_lingo.Examples.Texts.{texts_in_memory}
use lok_lingo.Jobs.Loop.Settled.{processed, work_on-settles}
use lok_lingo.Examples.Loop.{no_random}
use lok_lingo.Examples.Memory.{in_memory, shown}
use lok_lingo.Examples.Redis.{one_queued, at_second}
use lok_lingo.Examples.Failures.{broken_job, willing}
use lok_lingo.Examples.Translate.{failing, script, with_answers}

abbrev silent : Runtime
silent = record script { translate = λ ctx text source target w. (err (failing (codes "down")), w) }

abbrev no_checkpoints : (rt : Runtime) → Option (CheckpointStore rt.World)
no_checkpoints rt = none

-- A store of checkpoints that finds none.
abbrev empty_store : (rt : Runtime) → CheckpointStore rt.World
empty_store rt = record {
  get_chunk_checkpoint = λ id key w. (ok none, w);
  set_chunk_checkpoint = λ id key us w. (ok tt, w);
}

abbrev empty_checkpoints : (rt : Runtime) → Option (CheckpointStore rt.World)
empty_checkpoints rt = some (empty_store rt)

abbrev desk : (rt : Runtime) → Option (CheckpointStore rt.World) → Outside
desk rt kept = record {
  rt = rt;
  Place = Unit {0};
  update = λ job w. (7, ok tt, w);
  queue_stats = none;
  get_cached = λ text source target w. (err (failing (codes "miss")), w);
  set_cached = λ text source target translated w. (ok tt, w);
  checkpoints = kept;
  sha256_hex = λ t. t;
  page_count = λ path w. (ok 1, w);
  extract_pages = λ path w. (ok [], w);
  ocr_client = none;
  average_confidence = λ cs. 0;
  show_confidence = λ n. [];
  write_image_passthrough_output = λ path w. (ok path, w);
  draw_text_on_image = λ path blocks texts opts w. (ok path, w);
  remove_file = λ path w. w;
  take_slot = λ ctx w. (none, w);
  free_slot = λ w. w;
  notices = λ w. ([], w);
  now = λ w. 0;
}

abbrev pub small_chunks : Tuning
small_chunks = record {
  max_pdf_pages = 10;
  translate_concurrency = 2;
  llm_slots = 4;
  chunk_min_words = 1;
  chunk_max_words = 2;
}

abbrev note_job : Job
note_job = record broken_job { type = text_job; text = codes "one two three"; error_msg = [] }

abbrev note_run : (o : Outside) → State o.rt → Run o
note_run o inner = record { job = note_job; inner = inner; events = [] }

abbrev pub answering : Outside
answering = desk script (empty_checkpoints script)

abbrev pub answers : State script
answers = with_answers (ok (codes "uno dos") ∷ ok (codes "tres") ∷ [])

abbrev mute : Outside
mute = desk silent (no_checkpoints silent)

abbrev no_answers : State silent
no_answers = record {
  world = [];
  metrics = record { translate_retry_count = 0; timeout_retry_count = 0; split_count = 0 };
}

-- What is found under a key.
abbrev found_under :
    JobId
    → Text
    → List (Result Text)
    → Option (CheckpointStore script.World)
    → Result (Option (List ChunkUnit))
found_under id key w none = ok none
found_under id key w (some store) = (store.get_chunk_checkpoint id key w).0

nothing_found : HasAlignedCheckpoints answering 0
nothing_found store e us out id source target w f =
    absurd (
      none_ne_some
        (ap (found_under id (chunk_checkpoint_key answering 0 us source target) w) e ∙ f))
  where
    none_ne_some : ◌≡◌ {A = Result (Option (List ChunkUnit))} (ok none) (ok (some out)) → ⊥
    none_ne_some e = cc

process-reports_example :
    Holds
      (λ t. reports_end t.job.status t.events ≡ true)
      (process answering 0 small_chunks (note_run answering answers))
process-reports_example =
    process-reports answering 0 small_chunks (omega arith) (note_run answering answers)

translate_document-IsTranslated_example :
    (units : List ChunkUnit) × (words_of (texts_of units) ≡ words_of (codes "one two three" ∷ []))
    × (build_chunk_units (codes "one two three" ∷ []) 2 ≡ some units)
    × Holds
        (λ t. IsTranslated answering 0 (λ us out. pages_of out ≡ pages_of us) units t.job)
        (translate_document answering 0 small_chunks 2
          (codes "one two three" ∷ [])
          (note_run answering answers))
translate_document-IsTranslated_example =
    translate_document-IsTranslated answering 0 small_chunks (omega arith) 2
      (codes "one two three" ∷ []) (note_run answering answers) (failing (codes "miss")) refl
      (λ us out. pages_of out ≡ pages_of us) (aligned_answer answering 0 nothing_found)
      (λ us out e. e)

translate_document-keeps_words_example :
    Holds
      (λ t.
        (t.job.status ≡ failed)
        ⊎ ((t.job.status ≡ completed)
            × (fields t.job.translated_text ≡ words_of (codes "one two three" ∷ []))))
      (translate_document mute 0 small_chunks 2
        (codes "one two three" ∷ [])
        (note_run mute no_answers))
translate_document-keeps_words_example =
    translate_document-keeps_words mute 0 small_chunks (omega arith) 2 (codes "one two three" ∷ [])
      (note_run mute no_answers) (failing (codes "miss")) refl
      (λ ctx text source target w. (failing (codes "down"), refl)) refl

abbrev seen : {o : Outside} → Outcome (Run o) → Text × List Event
seen (returns t) = (t.job.translated_text, t.events)
seen panics = ([], [])
seen runs_out = ([], [])

-- The first chunk has two words and the second one.
answered_in_order : seen (process answering 0 small_chunks (note_run answering answers)) ≡ (
  codes "uno dos tres",
  job_completed ∷ export_completed ∷ export_started ∷ chunk_completed ∷ chunk_started
      ∷ inc_chunk_checkpoint_miss ∷ chunk_completed ∷ chunk_started ∷ inc_chunk_checkpoint_miss
      ∷ translation_started ∷ [],
)
unfolding process run_job start select_pipeline finish translate_pages translate_units run_batch
    run_chunk look_up_checkpoint look_up_in translate_anew settle set_checkpoint gather add_parts
    conclude count_units advance chunk_checkpoint_key set_job_stage hear notify_all
    split_by_word_budget build_text_chunks effective_translate_concurrency translate_chunk
    translate_single translate_joined translate_with_chunk_timeout translate_with_retry retry_from
    use_answer removes_source translate_document build_chunk_units fields is_space trim_space join
answered_in_order = refl

-- A worker over the server in memory, whose PDF files cannot be read for now.
abbrev memory_runtime : Runtime
memory_runtime = record {
  World = World in_memory;
  Ctx = ℕ;
  ctx_err = λ ctx w. none;
  with_timeout = λ ctx ms w. (ctx, w);
  cancel = λ ctx w. w;
  acquire = λ ctx w. (none, w);
  release = λ w. w;
  sleep = λ ctx ms w. (none, w);
  emit_chunk_retry = λ ctx n w. w;
  translate = λ ctx text source target w. (err (failing (codes "down")), w);
}

abbrev unread : Outside
unread = record (desk memory_runtime (no_checkpoints memory_runtime)) {
  update = update in_memory;
  queue_stats = some (queue_stats in_memory);
  extract_pages = λ path w. (err (failing (codes "gateway timeout")), w);
}

abbrev as_it_is : World in_memory → World in_memory
as_it_is w = w

abbrev one_taken : World in_memory
one_taken = at_second 9 [] one_queued

abbrev unread_processed : Job → World in_memory → Job × World in_memory
unread_processed = processed in_memory unread 0 small_chunks as_it_is as_it_is

all_answered : (unread_processed broken_job one_taken).1.trips ≡ []
unfolding processed process run_job start extract_pdf check_pages extract_text set_job_stage
    fall_back finish removes_source update single effective_translate_concurrency queue_stats ◌>>=◌
    wrapped pure
all_answered = refl

abbrev clear_in_memory : JobId → World in_memory → Result (Unit {0}) × World in_memory
clear_in_memory = clear_chunk_checkpoints in_memory texts_in_memory

work_on-settles_example :
    ((unread_processed broken_job one_taken).0.id ≡ "j1")
    × (((unread_processed broken_job one_taken).0.status ≡ completed)
        ⊎ IsWaiting "j1" (
            shown
              (work_on in_memory no_random unread_processed clear_in_memory broken_job
                one_taken).db))
work_on-settles_example =
    work_on-settles in_memory unread 0 small_chunks as_it_is as_it_is no_random clear_in_memory
      (λ id. clear_chunk_checkpoints-view in_memory texts_in_memory id (λ qs db h. refl)) broken_job
      one_taken (omega arith) all_answered

-- Removing a file empties the script.
abbrev tidying : Outside
tidying = record (desk script (no_checkpoints script)) { remove_file = λ path w. [] }

process-IsSpent_example :
    Holds
      (IsSpent tidying 0 small_chunks willing no_random (codes "/tmp/a.pdf") (λ v. v ≡ []))
      (process tidying 0 small_chunks (record { job = broken_job; inner = answers; events = [] }))
process-IsSpent_example =
    process-IsSpent tidying 0 small_chunks willing no_random
      (record { job = broken_job; inner = answers; events = [] }) (λ v. v ≡ []) (omega arith) refl
      refl (λ v. refl)

process-request_of_example :
    Holds
      (λ t. has_ended t.job.status ≡ true × request_of t.job ≡ request_of note_job)
      (process answering 0 small_chunks (note_run answering answers))
process-request_of_example =
    process-request_of answering 0 small_chunks (note_run answering answers) (omega arith)
