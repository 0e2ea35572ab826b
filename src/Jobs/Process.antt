-- ===== src/Jobs/Process.antt =====
-- Worker.process (backend/jobs/worker.go), which brings a job that was taken to its end. Latencies and log
-- lines are left out.
pub mod State
pub mod Document
pub mod Extract
pub mod Picture
pub mod Answers
pub mod Batches
pub mod Ends
pub mod Pages
pub mod Content
pub mod Outcomes
pub mod Keeps
pub mod Sources
pub mod Frame
pub mod PageCount
use lok_lingo.Prelude.{ℕ, Bool, true, false, List, [], ◌∷◌, Option, none, some, if◌then◌else◌}
use lok_lingo.Go.Text.{Text, codes, is_empty}
use lok_lingo.Jobs.Job.{
  Job, JobType, text_job, pdf_job, image_job, Mode, unset, overlay, layout, ocr_only, Status,
  pending, processing, completed, failed, effective_mode,
}
use lok_lingo.Jobs.Failures.{effective_translate_concurrency, removes_source}
use lok_lingo.Jobs.Options.{Tuning}
use lok_lingo.Jobs.Translate.{Outcome, returns, panics, runs_out}
use lok_lingo.Jobs.Process.State.{
  Outside, Run, job_failed, job_completed, and_then, store_of, with_job, with_world, emit,
  fail_with,
}
use lok_lingo.Jobs.Process.Document.{translate_document}
use lok_lingo.Jobs.Process.Extract.{stops, goes_on, extract_pdf}
use lok_lingo.Jobs.Process.Picture.{process_image}

module _ (o : Outside) (ctx : o.rt.Ctx) (worker : Tuning) where
  -- if job.CorrelationID == "" { job.CorrelationID = job.ID }
  abbrev pub correlated : Job → Job
  correlated job = record job {
    warnings = [];
    ocr_confidence = 0;
    correlation_id = (if is_empty job.correlation_id then codes job.id else job.correlation_id);
  }

  -- The queue's depth is read for the events, and then the load for the concurrency.
  abbrev pub read_depth : o.rt.World → o.rt.World
  read_depth w = elim (o.queue_stats) [ none ↦ w | some stats_of ↦ (stats_of w).1 ]

  unfoldable pub start : Run o → ℕ × Run o
  start s =
      let (c, w) =
        effective_translate_concurrency (store_of o) (λ n. n) worker.translate_concurrency
          (read_depth s.inner.world) in
      (c.0, with_job o correlated (with_world o w s))

  unfoldable pub process_layout_mode : Run o → Run o
  process_layout_mode = fail_with o (codes "layout mode is currently supported for image jobs only")

  abbrev pub ocr_only_unsupported : Text
  ocr_only_unsupported = codes "ocr_only mode is currently supported for image and pdf jobs only"

  -- The pipeline that the job's mode and type select.
  unfoldable pub select_pipeline : Mode → JobType → ℕ → List Text → Run o → Outcome (Run o)
  select_pipeline mode image_job concurrency pages s = process_image o ctx worker mode s
  select_pipeline layout _ concurrency pages s = returns (process_layout_mode s)
  select_pipeline ocr_only _ concurrency pages s = returns (fail_with o ocr_only_unsupported s)
  select_pipeline _ _ concurrency pages s = translate_document o ctx worker concurrency pages s

  abbrev pub run_pipeline : ℕ → List Text → Run o → Outcome (Run o)
  run_pipeline concurrency pages s =
      select_pipeline (effective_mode s.job.mode) s.job.type concurrency pages s

  -- The text of a job that is no PDF is a single page.
  unfoldable pub run_job : JobType → ℕ → Run o → Outcome (Run o)
  run_job pdf_job concurrency s = elim (extract_pdf o worker.max_pdf_pages s) [
    | stops s1 ↦ returns s1
    | goes_on pages s1 ↦ run_pipeline concurrency pages s1
  ]
  run_job _ concurrency s = run_pipeline concurrency (s.job.text ∷ []) s

  abbrev pub report_end : Status → Run o → Run o
  report_end failed s = emit o job_failed s
  report_end completed s = emit o job_completed s
  report_end _ s = s

  abbrev pub clean_up : Run o → Run o
  clean_up s =
      if removes_source s.job
      then with_world o (o.remove_file s.job.file_path s.inner.world) s
      else s

  -- The deferred functions, the last deferred first.
  unfoldable pub finish : Run o → Run o
  finish s = clean_up (report_end s.job.status s)

  unfoldable pub process : Run o → Outcome (Run o)
  process s =
      let (concurrency, s1) = start s in
      and_then (run_job s1.job.type concurrency s1) (λ t. returns (finish t))
