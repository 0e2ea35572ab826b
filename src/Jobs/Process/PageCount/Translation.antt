-- ===== src/Jobs/Process/PageCount/Translation.antt =====
-- The translation of a document counts no more pages as processed than there are (Worker.process in
-- backend/jobs/worker.go).
use lok_lingo.Prelude.{
  ℕ, ◌+◌, ◌≤◌, ◌≡◌, if◌then◌else◌, refl, ap, sym, ◌∙◌, ◌⊎◌, inl, inr, Bool, Option, none, some,
  false, List, [], ◌∷◌, arith, Bool-cases, Option-cases, length,
}
use lok_lingo.Go.Text.{Text}
use lok_lingo.Go.Failure.{GoError, Result-cases}
use lok_lingo.Jobs.Job.{Job}
use lok_lingo.Jobs.Options.{Tuning}
use lok_lingo.Jobs.Chunks.{build_chunk_units}
use lok_lingo.Jobs.Process.State.{Outside, Run, inc_degraded_mode, emit, set_job_stage}
use lok_lingo.Jobs.Process.Document.Chunk.{PageResult, Progress, count_units, zeros, is_pdf}
use lok_lingo.Jobs.Process.Document.{
  translate_pages, translate_document, gather, conclude, conclude_results, is_unrecoverable,
}
use lok_lingo.Jobs.Process.{start}
use lok_lingo.Jobs.Process.Keeps.{Leads, and_then-Leads, translate_units-Good}
use lok_lingo.Jobs.Process.Frame.{paged_request_of}
use lok_lingo.Jobs.Process.PageCount.Reached.{
  reached_bound, reached-zeros, length-count_units, length-zeros, CountsReached, counts-Keeps,
  CountsNone, none-Keeps,
}

abbrev pub CountsWithin : Job → Type 0
CountsWithin job = job.processed_pages ≤ job.total_pages

-- As after the extraction of the pages.
abbrev pub CountsFrom : List Text → Job → Type 0
CountsFrom pages job = (job.total_pages ≡ length pages) × (job.processed_pages ≡ 0)

-- What a document's translation starts with: a PDF whose pages are counted from 0, or any other job.
abbrev pub IsReady : List Text → Job → Type 0
IsReady pages job = CountsFrom pages job ⊎ ((is_pdf job.type ≡ false) × CountsWithin job)

pub stays_within :
    (j k : Job) → paged_request_of k ≡ paged_request_of j → CountsWithin j → CountsWithin k
stays_within j k e h =
    omega
      (arith, ap (λ (job : Job). job.total_pages) e, ap (λ (job : Job). job.processed_pages) e, h)

module _ (o : Outside) (ctx : o.rt.Ctx) where
  gather-job :
      (done : Bool) (rs : List PageResult) (parts : List (List Text)) (n : ℕ) (s : Run o)
      → (gather o ctx done rs parts n s).1.job ≡ s.job
  unfolding gather
  gather-job done [] parts n s = refl
  gather-job done (r ∷ rs) parts n s = elim (Option-cases (r.error)) [
    | inl e ↦ rw (e, gather) (gather-job done rs _ n s)
    | inr (x, e) ↦ elim (Bool-cases (is_unrecoverable o ctx done x)) [
      | inl f ↦ rw (e, gather) (rw f refl)
      | inr f ↦ rw (e, gather) (rw f (gather-job done rs _ (n + 1) (emit o inc_degraded_mode s)))
    ]
  ]

  conclude-pages :
      (t : Option GoError × List (List Text) × ℕ) (s : Run o)
      → CountsWithin s.job
      → CountsWithin (conclude o ctx t s).job
  unfolding conclude
  conclude-pages (some e, parts, n) s h = h
  conclude-pages (none, parts, n) s h = h

  conclude_results-pages :
      (pages : List Text) (rs : List PageResult) (d : Progress o)
      → CountsWithin d.run.job
      → CountsWithin (conclude_results o ctx pages (rs, d)).job
  conclude_results-pages pages rs d h = conclude-pages _ _ (rw (gather-job _ rs _ 0 d.run) h)

  translate_pages-pages :
      (w : Tuning) (c : ℕ) (pages : List Text) (s : Run o)
      → IsReady pages s.job
      → Leads (λ t. CountsWithin t.job) (translate_pages o ctx w c pages s)
  unfolding translate_pages set_job_stage
  translate_pages-pages w c pages s start =
      elim (Option-cases (build_chunk_units pages w.chunk_max_words)) [
        | inl e ↦ rw (e, translate_pages) tt
        | inr (us, e) ↦
            let targets = count_units us (zeros pages) in
            let within : (done : List ℕ) (job : Job)
                → CountsReached targets (length pages) done job
                → CountsWithin job =
              λ done job k. omega (
                arith,
                k.0,
                k.1,
                reached_bound targets done,
                length-count_units us (zeros pages),
                length-zeros pages,
              ) in
            rw (e, translate_pages)
              (elim start [
                | inl h ↦
                    and_then-Leads
                      (λ q. CountsReached targets (length pages) q.1.unit_done q.1.run.job)
                      (λ t. CountsWithin t.job) _ _
                      (translate_units-Good o ctx (counts-Keeps targets (length pages)) (length us)
                        c _ us _ (h.0, h.1 ∙ sym (reached-zeros targets pages)))
                      (λ q k.
                        conclude_results-pages pages q.0 q.1 (within q.1.unit_done q.1.run.job k))
                | inr (p, h) ↦
                    and_then-Leads (λ q. CountsNone s.job q.1.unit_done q.1.run.job)
                      (λ t. CountsWithin t.job) _ _
                      (translate_units-Good o ctx (none-Keeps targets s.job) (length us) c _ us _
                        (p, refl, refl))
                      (λ q k. conclude_results-pages pages q.0 q.1 (omega (arith, k.1, k.2, h)))
              ])
      ]

  pub translate_document-pages :
      (w : Tuning) (c : ℕ) (pages : List Text) (s : Run o)
      → IsReady pages s.job
      → Leads (λ t. CountsWithin t.job) (translate_document o ctx w c pages s)
  unfolding translate_document
  translate_document-pages w c pages s h =
      elim (Result-cases (o.get_cached s.job.text s.job.source s.job.target s.inner.world).0) [
        | inl (t, e) ↦ rw (e, translate_document) (cached_within h)
        | inr (x, e) ↦ rw (e, translate_document) (translate_pages-pages w c pages _ h)
      ]
    where
      cached_within :
          IsReady pages s.job
          → (if is_pdf s.job.type then s.job.total_pages else s.job.processed_pages)
            ≤ s.job.total_pages
      cached_within (inl k) = ground (arith, k.0, k.1)
      cached_within (inr (p, k)) = rw p k

  pub ready_within : (pages : List Text) (job : Job) → IsReady pages job → CountsWithin job
  ready_within pages job (inl h) = omega (arith, h.0, h.1)
  ready_within pages job (inr h) = h.1
