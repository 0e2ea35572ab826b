-- ===== src/Jobs/Process/Frame/Pipeline.antt =====
-- What Worker.process keeps of a job, given what its parts keep (backend/jobs/worker.go).
use lok_lingo.Prelude.{ℕ, ◌≡◌, refl, ap, inl, inr, false, List, Bool-cases}
use lok_lingo.Go.Text.{Text}
use lok_lingo.Jobs.Job.{
  Job, JobType, text_job, pdf_job, image_job, Mode, unset, overlay, layout, ocr_only, Status,
  pending, processing, completed, failed,
}
use lok_lingo.Jobs.Options.{Tuning}
use lok_lingo.Jobs.Failures.{removes_source}
use lok_lingo.Jobs.Translate.{returns}
use lok_lingo.Jobs.Process.{
  report_end, process, finish, start, run_job, run_pipeline, select_pipeline, process_layout_mode,
}
use lok_lingo.Jobs.Process.State.{Outside, Run}
use lok_lingo.Jobs.Process.Document.{translate_document}
use lok_lingo.Jobs.Process.Document.Chunk.{is_pdf}
use lok_lingo.Jobs.Process.Picture.{process_image}
use lok_lingo.Jobs.Process.Extract.{Step, stops, goes_on}
use lok_lingo.Jobs.Process.Keeps.{Leads, Leads-map, and_then-Leads}
use lok_lingo.Jobs.Process.Frame.{paged_request_of}
use lok_lingo.Jobs.Process.Frame.Images.{process_image-Stays}
use lok_lingo.Jobs.Process.Frame.Extraction.{KeepsPages, Extracts, extract_pdf-keeps}

-- A predicate of a job, and of one whose pages are to be translated, which the extraction and the
-- translation of a document keep.
pub record KeepsJob (o : Outside) (ctx : o.rt.Ctx) (w : Tuning) (P : Job → Type 0)
    (Q : List Text → Job → Type 0) : Type 0 where
  pub pages : KeepsPages P Q
  pub other : (pages : List Text) (j : Job) → is_pdf j.type ≡ false → P j → Q pages j
  pub ready : (pages : List Text) (j : Job) → Q pages j → P j
  pub document :
      (c : ℕ) (pages : List Text) (s : Run o)
      → Q pages s.job
      → Leads (λ t. P t.job) (translate_document o ctx w c pages s)

module _ (o : Outside) (ctx : o.rt.Ctx) (w : Tuning) {P : Job → Type 0}
    {Q : List Text → Job → Type 0} (keeps : KeepsJob o ctx w P Q) where
  select_pipeline-keeps :
      (mode : Mode) (type : JobType) (c : ℕ) (pages : List Text) (s : Run o)
      → Q pages s.job
      → Leads (λ t. P t.job) (select_pipeline o ctx w mode type c pages s)
  unfolding select_pipeline process_layout_mode
  select_pipeline-keeps mode image_job c pages s h =
      Leads-map (λ t. paged_request_of t.job ≡ paged_request_of s.job) (λ t. P t.job)
        (process_image o ctx w mode s)
        (λ t k. keeps.pages.same s.job t.job k (keeps.ready pages s.job h))
        (process_image-Stays o (paged_request_of s.job) ctx w mode s refl)
  select_pipeline-keeps layout text_job c pages s h =
      keeps.pages.same s.job _ refl (keeps.ready pages s.job h)
  select_pipeline-keeps layout pdf_job c pages s h =
      keeps.pages.same s.job _ refl (keeps.ready pages s.job h)
  select_pipeline-keeps ocr_only text_job c pages s h =
      keeps.pages.same s.job _ refl (keeps.ready pages s.job h)
  select_pipeline-keeps ocr_only pdf_job c pages s h =
      keeps.pages.same s.job _ refl (keeps.ready pages s.job h)
  select_pipeline-keeps unset text_job c pages s h = keeps.document c pages s h
  select_pipeline-keeps unset pdf_job c pages s h = keeps.document c pages s h
  select_pipeline-keeps overlay text_job c pages s h = keeps.document c pages s h
  select_pipeline-keeps overlay pdf_job c pages s h = keeps.document c pages s h

  then_run :
      (c : ℕ) (t : Step (List Text) (Run o))
      → Extracts P Q (λ s. s.job) t
      → Leads
          (λ t. P t.job)
          (elim t [ stops s1 ↦ returns s1 | goes_on pages s1 ↦ run_pipeline o ctx w c pages s1 ])
  then_run c (stops s) k = k
  then_run c (goes_on pages s) k = select_pipeline-keeps _ _ c pages s k

  pub run_job-keeps :
      (type : JobType) (c : ℕ) (s : Run o)
      → s.job.type ≡ type
      → P s.job
      → Leads (λ t. P t.job) (run_job o ctx w type c s)
  unfolding run_job
  run_job-keeps pdf_job c s e h = then_run c _ (extract_pdf-keeps o keeps.pages w.max_pdf_pages s h)
  run_job-keeps text_job c s e h =
      select_pipeline-keeps _ _ c _ s (keeps.other _ s.job (ap is_pdf e) h)
  run_job-keeps image_job c s e h =
      select_pipeline-keeps _ _ c _ s (keeps.other _ s.job (ap is_pdf e) h)

  pub report_end-keeps : (st : Status) (s : Run o) → P s.job → P (report_end o ctx w st s).job
  report_end-keeps pending s h = h
  report_end-keeps processing s h = h
  report_end-keeps completed s h = h
  report_end-keeps failed s h = h

  finish-keeps : (s : Run o) → P s.job → P (finish o ctx w s).job
  unfolding finish
  finish-keeps s h = elim (Bool-cases (removes_source (report_end o ctx w s.job.status s).job)) [
    | inl e ↦ rw e (report_end-keeps s.job.status s h)
    | inr e ↦ rw e (report_end-keeps s.job.status s h)
  ]

  pub process-keeps : (s : Run o) → P s.job → Leads (λ t. P t.job) (process o ctx w s)
  unfolding process start
  process-keeps s h =
      and_then-Leads (λ t. P t.job) (λ t. P t.job) _ _
        (run_job-keeps _ _ (start o ctx w s).1 refl (keeps.pages.same s.job _ refl h))
        (λ t k. finish-keeps t k)
