-- ===== src/Jobs/Process/Frame.antt =====
-- What Worker.process leaves of a job as it was (backend/jobs/worker.go): what the job asks for. This file
-- has the stages and the translation of a document.
pub mod Extraction
pub mod Images
pub mod Pipeline
pub mod Whole
use lok_lingo.Prelude.{
  ℕ, zero, suc, ◌+◌, ◌≡◌, refl, ap, sym, ◌∙◌, get_elem?, if◌then◌else◌, inl, inr, Bool, true, false,
  List, [], ◌∷◌, Option, none, some, arith, Bool-cases, Option-cases, length,
}
use lok_lingo.Go.Text.{Text}
use lok_lingo.Go.Failure.{GoError, Result, ok, err, Result-cases}
use lok_lingo.Jobs.Job.{Job, Stage, pending, no_stage}
use lok_lingo.Jobs.Options.{Tuning}
use lok_lingo.Jobs.Chunks.{ChunkUnit, TextChunk, build_chunk_units, is_nil, build_text_chunks}
use lok_lingo.Jobs.Translate.{Outcome, returns, panics, runs_out, translate_chunk}
use lok_lingo.Jobs.Process.State.{
  Outside, Run, CheckpointStore, Notice, chunk_started, chunk_completed, inc_degraded_mode,
  and_then, with_world, emit, notify_stage, notify_all, hear, set_job_stage, warn_of_confidence,
}
use lok_lingo.Jobs.Process.Document.Chunk.{
  PageResult, Progress, look_up_in, look_up_checkpoint, set_checkpoint, count_page, advance, settle,
  increment, same_count, count_units, zeros,
}
use lok_lingo.Jobs.Process.Keeps.{Keeps, Leads, and_then-Leads, translate_units-Good}
use lok_lingo.Jobs.Process.Document.{
  translate_units, gather, is_unrecoverable, conclude, conclude_results, translate_pages,
  translate_document, next_batch, next_range, left_over,
}

-- The job without what processing fills in, but with its pages.
abbrev pub paged_request_of : Job → Job
paged_request_of job = record job {
  correlation_id = [];
  status = pending;
  text = [];
  translated_text = [];
  output_file_path = [];
  error_msg = [];
  updated_at = 0;
  stage = no_stage;
  stage_message = [];
  stage_progress = 0;
  warnings = [];
  ocr_confidence = 0;
  processing_method = [];
}

abbrev pub without_pages : Job → Job
without_pages job = record job { total_pages = 0; processed_pages = 0 }

-- The job without what processing fills in.
abbrev pub request_of : Job → Job
request_of job = without_pages (paged_request_of job)

-- What the loops over the chunks keep.
pub asks-Keeps : (targets : List ℕ) (r : Job) → Keeps targets (λ _ job. request_of job ≡ r)
asks-Keeps targets r = record {
  frame = λ done j k e h. sym (ap request_of e) ∙ h;
  count = λ done j i p h.
      counted (same_count (get_elem? (increment i done) i) (get_elem? targets i)) j h;
}
  where
    counted :
        (whole : Bool) (j : Job)
        → request_of j ≡ r
        → request_of (if whole then record j { processed_pages = j.processed_pages + 1 } else j) ≡ r
    counted true j h = h
    counted false j h = h

module _ (o : Outside) (s : Run o) where
  pub set_job_stage-request_of :
      (st : Stage) (message : Text) (n : ℕ)
      → paged_request_of (set_job_stage o st message n s).job ≡ paged_request_of s.job
  unfolding set_job_stage
  set_job_stage-request_of st message n = refl

  pub warn_of_confidence-request_of :
      (advice : Text)
      → paged_request_of (warn_of_confidence o advice s).job ≡ paged_request_of s.job
  unfolding warn_of_confidence
  warn_of_confidence-request_of advice = ground arith

notify_all-request_of :
    (o : Outside) (ns : List Notice) (s : Run o)
    → paged_request_of (notify_all o ns s).job ≡ paged_request_of s.job
unfolding notify_all notify_stage
notify_all-request_of o [] s = refl
notify_all-request_of o (n ∷ ns) s = notify_all-request_of o ns (notify_stage o n s)

pub hear-request_of :
    (o : Outside) (s : Run o) → paged_request_of (hear o s).job ≡ paged_request_of s.job
unfolding hear
hear-request_of o s = notify_all-request_of o (o.notices s.inner.world).0 _

module _ (o : Outside) (j : Job) where
  abbrev pub Stays : Run o → Type 0
  Stays s = paged_request_of s.job ≡ j

  abbrev pub Asks : Run o → Type 0
  Asks s = request_of s.job ≡ j

  pub set_job_stage-Asks :
      (st : Stage) (message : Text) (n : ℕ) (s : Run o)
      → Asks s
      → Asks (set_job_stage o st message n s)
  unfolding set_job_stage
  set_job_stage-Asks st message n s h = h

  pub warn_of_confidence-Asks :
      (advice : Text) (s : Run o) → Asks s → Asks (warn_of_confidence o advice s)
  warn_of_confidence-Asks advice s h =
      ap without_pages (warn_of_confidence-request_of o s advice) ∙ h

  module _ (ctx : o.rt.Ctx) where
    gather-Asks :
        (done : Bool) (rs : List PageResult) (parts : List (List Text)) (n : ℕ) (s : Run o)
        → Asks s
        → Asks (gather o ctx done rs parts n s).1
    unfolding gather
    gather-Asks done [] parts n s h = h
    gather-Asks done (r ∷ rs) parts n s h = elim (Option-cases (r.error)) [
      | inl e ↦ rw (e, gather) (gather-Asks done rs _ n s h)
      | inr (x, e) ↦ elim (Bool-cases (is_unrecoverable o ctx done x)) [
        | inl f ↦ rw (e, gather) (rw f h)
        | inr f ↦
            rw (e, gather) (rw f (gather-Asks done rs _ (n + 1) (emit o inc_degraded_mode s) h))
      ]
    ]

    conclude-Asks :
        (t : Option GoError × List (List Text) × ℕ) (s : Run o) → Asks s → Asks (conclude o ctx t s)
    unfolding conclude
    conclude-Asks (some e, parts, n) s h = h
    conclude-Asks (none, parts, n) s h = h

    translate_pages-Asks :
        (w : Tuning) (concurrency : ℕ) (pages : List Text) (s : Run o)
        → Asks s
        → Leads Asks (translate_pages o ctx w concurrency pages s)
    unfolding translate_pages
    translate_pages-Asks w c pages s h =
        elim (Option-cases (build_chunk_units pages w.chunk_max_words)) [
          | inl e ↦ rw (e, translate_pages) tt
          | inr (us, e) ↦
              rw (e, translate_pages)
                (and_then-Leads (λ q. Asks q.1.run) Asks _ _
                  (translate_units-Good o ctx (asks-Keeps (count_units us (zeros pages)) j)
                    (length us) c _ us _ (set_job_stage-Asks _ _ _ _ h))
                  (λ q k. conclude-Asks _ _ (gather-Asks _ q.0 _ 0 q.1.run k)))
        ]

    pub translate_document-Asks :
        (w : Tuning) (concurrency : ℕ) (pages : List Text) (s : Run o)
        → Asks s
        → Leads Asks (translate_document o ctx w concurrency pages s)
    unfolding translate_document
    translate_document-Asks w c pages s h =
        elim (Result-cases (o.get_cached s.job.text s.job.source s.job.target s.inner.world).0) [
          | inl (t, e) ↦ rw (e, translate_document) h
          | inr (x, e) ↦ rw (e, translate_document) (translate_pages-Asks w c pages _ h)
        ]
