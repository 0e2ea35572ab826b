-- ===== src/Jobs/Process/Ends/Whole.antt =====
-- Worker.process brings a job to its end and reports it (backend/jobs/worker.go).
use lok_lingo.Prelude.{ℕ, ◌<◌, ◌≡◌, refl, ap, inl, inr, true, List, Bool-cases}
use lok_lingo.Go.Text.{Text}
use lok_lingo.Jobs.Job.{
  Job, JobType, text_job, pdf_job, image_job, Mode, unset, overlay, layout, ocr_only, Status,
  pending, processing, completed, failed,
}
use lok_lingo.Jobs.Options.{Tuning}
use lok_lingo.Jobs.Translate.{returns}
use lok_lingo.Jobs.Failures.{removes_source}
use lok_lingo.Jobs.Process.{
  clean_up, report_end, process, finish, start, run_job, run_pipeline, select_pipeline,
  process_layout_mode,
}
use lok_lingo.Jobs.Process.State.{Outside, Run}
use lok_lingo.Jobs.Process.Extract.{Step, stops, goes_on, extract_pdf}
use lok_lingo.Jobs.Process.Answers.{Holds, and_then-Holds}
use lok_lingo.Jobs.Process.Ends.{
  has_ended, Ended, reports_end, translate_document-Ended, StopsEnded, extract_pdf-StopsEnded,
}
use lok_lingo.Jobs.Process.Ends.Images.{process_image-Ended}

module _ (o : Outside) (ctx : o.rt.Ctx) (w : Tuning) (h : 0 < w.chunk_max_words) where
  select_pipeline-Ended :
      (mode : Mode) (type : JobType) (concurrency : ℕ) (pages : List Text) (s : Run o)
      → Holds (Ended o) (select_pipeline o ctx w mode type concurrency pages s)
  unfolding select_pipeline process_layout_mode
  select_pipeline-Ended mode image_job c pages s = process_image-Ended o ctx w h mode s
  select_pipeline-Ended layout text_job c pages s = refl
  select_pipeline-Ended layout pdf_job c pages s = refl
  select_pipeline-Ended ocr_only text_job c pages s = refl
  select_pipeline-Ended ocr_only pdf_job c pages s = refl
  select_pipeline-Ended unset text_job c pages s = translate_document-Ended o ctx w c pages s h
  select_pipeline-Ended unset pdf_job c pages s = translate_document-Ended o ctx w c pages s h
  select_pipeline-Ended overlay text_job c pages s = translate_document-Ended o ctx w c pages s h
  select_pipeline-Ended overlay pdf_job c pages s = translate_document-Ended o ctx w c pages s h

  then_run :
      (concurrency : ℕ) (t : Step (List Text) (Run o))
      → StopsEnded o t
      → Holds (Ended o) (elim t [
        | stops s1 ↦ returns s1
        | goes_on pages s1 ↦ run_pipeline o ctx w concurrency pages s1
      ])
  then_run c (stops s) k = k
  then_run c (goes_on pages s) k = select_pipeline-Ended _ _ c pages s

  pub run_job-Ended :
      (type : JobType) (concurrency : ℕ) (s : Run o)
      → Holds (Ended o) (run_job o ctx w type concurrency s)
  unfolding run_job
  run_job-Ended pdf_job c s =
      then_run c (extract_pdf o w.max_pdf_pages s) (extract_pdf-StopsEnded o ctx w.max_pdf_pages s)
  run_job-Ended text_job c s = select_pipeline-Ended _ _ c _ s
  run_job-Ended image_job c s = select_pipeline-Ended _ _ c _ s

  clean_up_keeps :
      (s : Run o) → ((clean_up o ctx w s).job ≡ s.job) × ((clean_up o ctx w s).events ≡ s.events)
  clean_up_keeps s = elim (Bool-cases (removes_source s.job)) [
    | inl e ↦ rw e (refl, refl)
    | inr e ↦ rw e (refl, refl)
  ]

  report_end-reports :
      (st : Status) (s : Run o)
      → s.job.status ≡ st
      → has_ended st ≡ true
      → let t = report_end o ctx w st s in reports_end t.job.status t.events ≡ true
  report_end-reports pending s e h = absurd (cc)
  report_end-reports processing s e h = absurd (cc)
  report_end-reports completed s e h = rw e refl
  report_end-reports failed s e h = rw e refl

  finish-reports :
      (s : Run o) → Ended o s → let t = finish o ctx w s in reports_end t.job.status t.events ≡ true
  unfolding finish
  finish-reports s e =
      let t = report_end o ctx w s.job.status s in
      let (j, v) = clean_up_keeps t in
      rw (ap (λ (k : Job). k.status) j, v) (report_end-reports s.job.status s refl e)

  -- For a positive maximum of words, whatever the outside answers, `process` returns, and the job that it
  -- leaves is completed or has failed, and its newest event says which.
  pub process-reports :
      (s : Run o) → Holds (λ t. reports_end t.job.status t.events ≡ true) (process o ctx w s)
  unfolding process
  process-reports s =
      and_then-Holds (Ended o) (λ t. reports_end t.job.status t.events ≡ true)
        (run_job o ctx w _ _ (start o ctx w s).1) _ (run_job-Ended _ _ (start o ctx w s).1)
        (λ t e. finish-reports t e)
