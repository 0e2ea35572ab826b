-- ===== src/Jobs/Process/Frame/Extraction.antt =====
-- What the extraction of a PDF keeps of a job (Worker.process in backend/jobs/worker.go).
use lok_lingo.Prelude.{
  ℕ, zero, suc, ◌≡◌, refl, inl, inr, ltb, List, [], ◌∷◌, arith, Bool-cases, Option-cases,
}
use lok_lingo.Go.Text.{Text, is_empty}
use lok_lingo.Go.Failure.{Result, ok, err, Result-cases}
use lok_lingo.Jobs.Job.{Job}
use lok_lingo.Jobs.Chunks.{is_nil}
use lok_lingo.Jobs.Normalize.{normalize_pages}
use lok_lingo.Jobs.Process.State.{Outside, Run, set_job_stage}
use lok_lingo.Jobs.Process.Extract.{
  go_on, Step, with_pages, with_recognised, stops, goes_on, recognise, with_confidence,
  finish_recognised, recognise_only, extract_text, use_text, fall_back, is_ocr_only,
  extract_or_recognise, check_pages, extract_pdf,
}
use lok_lingo.Jobs.Process.Frame.{paged_request_of, warn_of_confidence-request_of}

-- A predicate of a job, and of one whose pages are to be translated, which processing a PDF keeps: what it
-- changes but the pages does not matter to the first, and setting the pages gives the second.
pub record KeepsPages (P : Job → Type 0) (Q : List Text → Job → Type 0) : Type 0 where
  pub same : (j k : Job) → paged_request_of k ≡ paged_request_of j → P j → P k
  pub recognised : (pages : List Text) (j : Job) → P j → P (with_recognised pages j)
  pub extracted : (pages : List Text) (j : Job) → P j → Q pages (with_pages pages j)

-- The extraction ends the job, or leaves its pages to be translated.
abbrev pub Extracts :
    {B : Type 0}
    → (Job → Type 0)
    → (List Text → Job → Type 0)
    → (B → Job)
    → Step (List Text) B
    → Type 0
Extracts P Q job (stops s) = P (job s)
Extracts P Q job (goes_on pages s) = Q pages (job s)

module _ (o : Outside) {P : Job → Type 0} {Q : List Text → Job → Type 0}
    (keeps : KeepsPages P Q) where
  abbrev ExtractsTo : Step (List Text) (Run o) → Type 0
  ExtractsTo = Extracts P Q (λ (s : Run o). s.job)

  with_confidence-keeps : (c : ℕ) (s : Run o) → P s.job → P (with_confidence o c s).job
  with_confidence-keeps c s h =
      keeps.same s.job (with_confidence o c s).job (warn_of_confidence-request_of o _ _) h

  finish_recognised-keeps :
      (pages : List Text) (s : Run o) → P s.job → P (finish_recognised o pages s).job
  finish_recognised-keeps [] s h = keeps.same s.job _ refl h
  finish_recognised-keeps (p ∷ ps) s h =
      keeps.same (with_recognised (p ∷ ps) s.job) _ refl (keeps.recognised (p ∷ ps) s.job h)

  recognise_only-keeps : (s : Run o) → P s.job → P (recognise_only o s).job
  unfolding recognise_only recognise
  recognise_only-keeps s h = elim (Option-cases (o.ocr_client)) [
    | inl e ↦ rw (e, recognise_only) (keeps.same s.job _ refl h)
    | inr (client, e) ↦ elim (Result-cases (recognise o client s).0) [
      | inr (x, f) ↦ rw (e, recognise_only) (rw f (keeps.same s.job _ refl h))
      | inl (found, f) ↦
          let t = (recognise o client s).1 in
          rw (e, recognise_only)
            (rw f (
              finish_recognised-keeps (normalize_pages found.0) (with_confidence o found.1 t)
                (with_confidence-keeps found.1 t h)))
    ]
  ]

  go_on-keeps :
      (method : Text) (pages : List Text) (s : Run o)
      → P s.job
      → ExtractsTo (go_on o method pages s)
  go_on-keeps method pages s h =
      keeps.extracted pages (record (s.job) { processing_method = method })
        (keeps.same s.job _ refl h)

  fall_back-keeps : (reason : Text) (s : Run o) → P s.job → ExtractsTo (fall_back o reason s)
  unfolding fall_back recognise
  fall_back-keeps reason s h = elim (Option-cases (o.ocr_client)) [
    | inl e ↦ rw (e, fall_back) (keeps.same s.job _ refl h)
    | inr (client, e) ↦ elim (Result-cases (recognise o client s).0) [
      | inr (x, f) ↦ rw (e, fall_back) (rw f (keeps.same s.job _ refl h))
      | inl (found, f) ↦
          let t = (recognise o client s).1 in
          rw (e, fall_back)
            (rw f (
              go_on-keeps _ (normalize_pages found.0) (with_confidence o found.1 t)
                (with_confidence-keeps found.1 t h)))
    ]
  ]

  use_text-keeps :
      (q : Result (List Text) × Text) (s : Run o) → P s.job → ExtractsTo (use_text o q s)
  use_text-keeps (err e, reason) s h = fall_back-keeps reason s h
  use_text-keeps (ok pages, reason) s h = elim (Bool-cases (is_nil pages)) [
    | inl e ↦ rw e (fall_back-keeps reason s h)
    | inr e ↦ rw e (go_on-keeps _ pages s h)
  ]

  extract_text-job : (s : Run o) → (extract_text o s).1.job ≡ s.job
  unfolding extract_text
  extract_text-job s = ground arith

  extract_or_recognise-keeps : (s : Run o) → P s.job → ExtractsTo (extract_or_recognise o s)
  unfolding set_job_stage
  extract_or_recognise-keeps s h = elim (Bool-cases (is_ocr_only o s)) [
    | inl e ↦ rw e (recognise_only-keeps s h)
    | inr e ↦ rw e (use_text-keeps _ _ (rw (extract_text-job _) (keeps.same s.job _ refl h)))
  ]

  abbrev Checks : Step (Unit {0}) (Run o) → Type 0
  Checks (stops s) = P s.job
  Checks (goes_on u s) = P s.job

  check_pages-keeps : (limit : ℕ) (s : Run o) → P s.job → Checks (check_pages o limit s)
  unfolding check_pages
  check_pages-keeps zero s h = h
  check_pages-keeps (suc limit) s h =
      elim (Result-cases (o.page_count s.job.file_path s.inner.world).0) [
        | inr (x, e) ↦ rw (e, check_pages) h
        | inl (n, e) ↦ elim (Bool-cases (ltb (suc limit) n)) [
          | inl f ↦ rw (e, check_pages) (rw f (keeps.same s.job _ refl h))
          | inr f ↦ rw (e, check_pages) (rw f h)
        ]
      ]

  then_extract :
      (c : Step (Unit {0}) (Run o))
      → Checks c
      → ExtractsTo (elim c [ stops s1 ↦ stops s1 | goes_on _ s1 ↦ extract_or_recognise o s1 ])
  then_extract (stops s) h = h
  then_extract (goes_on u s) h = extract_or_recognise-keeps s h

  pub extract_pdf-keeps : (limit : ℕ) (s : Run o) → P s.job → ExtractsTo (extract_pdf o limit s)
  unfolding extract_pdf
  extract_pdf-keeps limit s h = elim (Bool-cases (is_empty s.job.file_path)) [
    | inl e ↦ rw e (keeps.same s.job _ refl h)
    | inr e ↦ rw e (then_extract (check_pages o limit s) (check_pages-keeps limit s h))
  ]
