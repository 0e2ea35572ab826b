-- ===== src/Jobs/Process/PageCount/Whole.antt =====
-- Worker.process counts no more pages as processed than there are (backend/jobs/worker.go).
use lok_lingo.Prelude.{inl, inr, refl, arith, ◌<◌, ◌≤◌, ◌≡◌, refl, inl, inr, true}
use lok_lingo.Jobs.Options.{Tuning}
use lok_lingo.Jobs.Process.State.{Outside, Run}
use lok_lingo.Jobs.Process.{process}
use lok_lingo.Jobs.Process.Answers.{Holds, Holds-map}
use lok_lingo.Jobs.Process.Ends.{reports_end}
use lok_lingo.Jobs.Process.Ends.Whole.{process-reports}
use lok_lingo.Jobs.Process.Frame.Whole.{Holds-Leads}
use lok_lingo.Jobs.Process.Frame.Pipeline.{KeepsJob, process-keeps}
use lok_lingo.Jobs.Process.PageCount.Translation.{
  CountsWithin, IsReady, stays_within, ready_within, translate_document-pages,
}

within-KeepsJob :
    (o : Outside) (ctx : o.rt.Ctx) (w : Tuning) → KeepsJob o ctx w CountsWithin IsReady
within-KeepsJob o ctx w = record {
  pages = record {
    same = stays_within;
    recognised = λ pages j h. omega arith;
    extracted = λ pages j h. inl (refl, refl);
  };
  other = λ pages j p h. inr (p, h);
  ready = ready_within o ctx;
  document = λ c pages s h. translate_document-pages o ctx w c pages s h;
}

-- For a positive maximum of words, whatever the outside answers, `process` returns, and leaves a job that
-- counts no more pages as processed than it has, if the job did so before: also when units are degraded, taken from
-- checkpoints or from the cache, recognised by OCR, or when the job fails.
pub process-CountsWithin :
    (o : Outside) (ctx : o.rt.Ctx) (w : Tuning) (s : Run o)
    → 0 < w.chunk_max_words
    → s.job.processed_pages ≤ s.job.total_pages
    → Holds (λ t. t.job.processed_pages ≤ t.job.total_pages) (process o ctx w s)
process-CountsWithin o ctx w s h within =
    Holds-map _ _ (process o ctx w s)
      (Holds-Leads (λ t. reports_end t.job.status t.events ≡ true) (λ t. CountsWithin t.job)
        (process o ctx w s) (process-reports o ctx w h s)
        (process-keeps o ctx w (within-KeepsJob o ctx w) s within))
      (λ t k. k.1)
