-- ===== src/Jobs/Process/Extract.antt =====
-- The text of a PDF in Worker.process (backend/jobs/worker.go): the guards, the recognition alone, and the
-- extraction with its fallback to recognition.
use lok_lingo.Prelude.{
  ℕ, zero, suc, Bool, true, false, List, ◌++◌, none, some, ltb, if◌then◌else◌, length,
}
use lok_lingo.Go.Text.{Text, codes, is_empty, join}
use lok_lingo.Go.Failure.{plain_error, Result, ok, err}
use lok_lingo.Go.Number.{decimal}
use lok_lingo.Jobs.Job.{Job, completed, ocr_only, detecting_text, effective_mode}
use lok_lingo.Jobs.Normalize.{normalize_pages}
use lok_lingo.Jobs.Chunks.{is_nil}
use lok_lingo.Jobs.Process.State.{
  Outside, Run, OcrClient, ocr_started, ocr_completed, with_job, with_world, emit, save, fail_with,
  set_job_stage, warn_of_confidence, extract_ocr_pages_and_confidence,
}

-- The job's end, or the pages to be translated.
pub data Step (A : Type 0) (B : Type 0) : Type 0 where
  stops : B → Step A B
  goes_on : A → B → Step A B

abbrev pub page_break : Text
page_break = codes "\n\n"

-- What the job says of its text.
abbrev pub with_pages : List Text → Job → Job
with_pages pages job = record job {
  text = join pages page_break;
  total_pages = length pages;
  processed_pages = 0;
}

abbrev pub with_recognised : List Text → Job → Job
with_recognised pages job = record job {
  processing_method = codes "ocr";
  text = join pages page_break;
  translated_text = join pages page_break;
  total_pages = length pages;
  processed_pages = length pages;
  status = completed;
}

module _ (o : Outside) where
  -- The recognition of the job's file, between its two events.
  unfoldable pub recognise : OcrClient o.Place o.rt.World → Run o → Result (List Text × ℕ) × Run o
  recognise client s =
      let j = s.job in
      let (r, w) =
        extract_ocr_pages_and_confidence o client j.file_path j.lang j.ocr_engine
          (effective_mode j.mode) s.inner.world in
      (r, emit o ocr_completed (with_world o w (emit o ocr_started s)))

  abbrev pub with_confidence : ℕ → Run o → Run o
  with_confidence c s =
      warn_of_confidence o (codes "). Continue with caution and verify critical text.")
        (with_job o (λ j. record j { ocr_confidence = c }) s)

  abbrev pub finish_recognised : List Text → Run o → Run o
  finish_recognised pages s =
      if is_nil pages
      then fail_with o (codes "pdf OCR extraction returned no text") s
      else save o (with_job o (with_recognised pages) s)

  -- A PDF in the mode ocr_only ends here.
  unfoldable pub recognise_only : Run o → Run o
  recognise_only s = elim (o.ocr_client) [
    | none ↦ fail_with o (codes "ocr client is required for translate_pdf jobs in ocr_only mode") s
    | some client ↦
        let (r, s1) = recognise client s in
        elim r [
          | err e ↦ fail_with o (codes "pdf OCR extraction failed: " ++ e.message) s1
          | ok found ↦ finish_recognised (normalize_pages found.0) (with_confidence found.1 s1)
        ]
  ]

  -- The text in the file, which a job can ask to be left alone.
  unfoldable pub extract_text : Run o → Result (List Text) × Run o
  extract_text s =
      if s.job.force_ocr
      then (err (plain_error (codes "force_ocr requested")), s)
      else (let (r, w) = o.extract_pages s.job.file_path s.inner.world in (r, with_world o w s))

  -- Why the text in the file will not do, or its pages.
  abbrev pub usable : Result (List Text) → Result (List Text) × Text
  usable (err e) = (err e, e.message)
  usable (ok pages) = (ok (normalize_pages pages), codes "empty text")

  abbrev pub go_on : Text → List Text → Run o → Step (List Text) (Run o)
  go_on method pages s =
      goes_on pages (with_job o (λ j. with_pages pages (record j { processing_method = method })) s)

  unfoldable pub fall_back : Text → Run o → Step (List Text) (Run o)
  fall_back reason s = elim (o.ocr_client) [
    | none ↦ stops (fail_with o (codes "pdf extraction failed: " ++ reason) s)
    | some client ↦
        let (r, s1) = recognise client s in
        elim r [
          | err e ↦ stops (
              fail_with o
                (codes "pdf extraction failed: "
                  ++ (reason ++ (codes "; OCR fallback failed: " ++ e.message)))
                s1)
          | ok found ↦ go_on (codes "ocr") (normalize_pages found.0) (with_confidence found.1 s1)
        ]
  ]

  abbrev pub use_text : Result (List Text) × Text → Run o → Step (List Text) (Run o)
  use_text (err e, reason) s = fall_back reason s
  use_text (ok pages, reason) s =
      if is_nil pages then fall_back reason s else go_on (codes "pdf_text") pages s

  abbrev pub extract_or_fall_back : Run o → Step (List Text) (Run o)
  extract_or_fall_back s =
      let (r, s1) =
        extract_text (set_job_stage o detecting_text (codes "Detecting text in document...") 5 s) in
      use_text (usable r) s1

  abbrev pub is_ocr_only : Run o → Bool
  is_ocr_only s = elim (effective_mode s.job.mode) [ ocr_only ↦ true | _ ↦ false ]

  abbrev pub extract_or_recognise : Run o → Step (List Text) (Run o)
  extract_or_recognise s =
      if is_ocr_only s then stops (recognise_only s) else extract_or_fall_back s

  abbrev pub too_many : ℕ → ℕ → Text
  too_many pages limit =
      codes "pdf has " ++ (decimal pages ++ (codes " pages; max allowed is " ++ decimal limit))

  -- The number of pages is looked at if there is a limit; an error of that is only logged.
  unfoldable pub check_pages : ℕ → Run o → Step (Unit {0}) (Run o)
  check_pages zero s = goes_on tt s
  check_pages (suc limit) s =
      let (r, w) = o.page_count s.job.file_path s.inner.world in
      elim r [
        | err e ↦ goes_on tt (with_world o w s)
        | ok n ↦
            if ltb (suc limit) n
            then stops (fail_with o (too_many n (suc limit)) (with_world o w s))
            else goes_on tt (with_world o w s)
      ]

  unfoldable pub extract_pdf : ℕ → Run o → Step (List Text) (Run o)
  extract_pdf max_pdf_pages s =
      if is_empty s.job.file_path
      then stops (fail_with o (codes "file_path is required for translate_pdf jobs") s)
      else elim (check_pages max_pdf_pages s) [
        | stops s1 ↦ stops s1
        | goes_on _ s1 ↦ extract_or_recognise s1
      ]
