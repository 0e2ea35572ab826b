-- ===== src/Jobs/Process/Sources.antt =====
-- What becomes of the source file of a PDF job (the deferred cleanup of Worker.process, and handleFailedJob, in
-- backend/jobs/worker.go).
use mathlib.Core.Path.{subst}
use lok_lingo.Prelude.{ℕ, ◌<◌, ◌≡◌, refl, sym, ap, ◌∙◌, true, false, arith}
use lok_lingo.Go.Text.{Text, is_empty}
use lok_lingo.Jobs.Job.{Job, Status, pending, processing, completed, failed, pdf_job}
use lok_lingo.Jobs.Options.{Tuning}
use lok_lingo.Jobs.Failures.{StoreApi, removes_source, handle_failed_job, schedule_retry, bury}
use lok_lingo.Jobs.Process.{process, finish, clean_up, report_end, start, run_job}
use lok_lingo.Jobs.Process.State.{Outside, Run}
use lok_lingo.Jobs.Process.Answers.{Holds, and_then-Holds}
use lok_lingo.Jobs.Process.Ends.{has_ended, Ended}
use lok_lingo.Jobs.Process.Ends.Whole.{run_job-Ended}
use lok_lingo.Jobs.Process.Frame.{request_of}
use lok_lingo.Jobs.Process.Frame.Whole.{Holds-Leads, asks-KeepsJob}
use lok_lingo.Jobs.Process.Frame.Pipeline.{run_job-keeps}

handle_failed_job-file_path :
    (api : StoreApi) (jitter : ℕ → ℕ) (job : Job) (w : api.World)
    → (handle_failed_job api jitter job w).0.file_path ≡ job.file_path
unfolding handle_failed_job schedule_retry bury
handle_failed_job-file_path api jitter job w = ground arith

removes_source-pdf :
    (job : Job)
    → job.type ≡ pdf_job
    → has_ended job.status ≡ true
    → is_empty job.file_path ≡ false
    → removes_source job ≡ true
unfolding removes_source
removes_source-pdf job t e f = ground (arith, t, e, f)

module _ (o : Outside) (ctx : o.rt.Ctx) (w : Tuning) (api : StoreApi) (jitter : ℕ → ℕ) where
  report_end-job : (st : Status) (s : Run o) → (report_end o ctx w st s).job ≡ s.job
  report_end-job pending s = refl
  report_end-job processing s = refl
  report_end-job completed s = refl
  report_end-job failed s = refl

  -- The source of a PDF job that has ended is removed, and the job names it still.
  clean_up-pdf :
      (s : Run o) (Removed : o.rt.World → Type 0)
      → ((v : o.rt.World) → Removed (o.remove_file s.job.file_path v))
      → s.job.type ≡ pdf_job
      → has_ended s.job.status ≡ true
      → is_empty s.job.file_path ≡ false
      → Removed (clean_up o ctx w s).inner.world × ((clean_up o ctx w s).job ≡ s.job)
  clean_up-pdf s Removed removes t e f =
      rw (removes_source-pdf s.job t e f) (removes s.inner.world, refl)

  -- How process leaves the source file of a job.
  pub record IsSpent (path : Text) (Removed : o.rt.World → Type 0) (t : Run o) : Type 0 where
    pub ended : has_ended t.job.status ≡ true
    pub removed : Removed t.inner.world
    pub named : t.job.file_path ≡ path
    pub judged : (v : api.World) → (handle_failed_job api jitter t.job v).0.file_path ≡ path

  finish-IsSpent :
      (s : Run o) (Removed : o.rt.World → Type 0)
      → s.job.type ≡ pdf_job
      → is_empty s.job.file_path ≡ false
      → ((v : o.rt.World) → Removed (o.remove_file s.job.file_path v))
      → (q : Run o) → Ended o q
      → request_of q.job ≡ request_of s.job
      → IsSpent s.job.file_path Removed (finish o ctx w q)
  unfolding finish
  finish-IsSpent s Removed t f removes q e same =
      let q1 = report_end o ctx w q.job.status q in
      let kept = report_end-job q.job.status q in
      let path : q1.job.file_path ≡ s.job.file_path =
        ap (λ (j : Job). j.file_path) kept ∙ ap (λ (j : Job). j.file_path) same in
      let (gone, job) =
        clean_up-pdf q1 Removed
          (subst (λ p. (v : o.rt.World) → Removed (o.remove_file p v)) (sym path) removes)
          (ap (λ (j : Job). j.type) kept ∙ ap (λ (j : Job). j.type) same ∙ t)
          (ap (λ (j : Job). has_ended j.status) kept ∙ e) (ap is_empty path ∙ f) in
      let named = ap (λ (j : Job). j.file_path) job ∙ path in
      record {
        ended =
            ap (λ (j : Job). has_ended j.status) job
            ∙ ap (λ (j : Job). has_ended j.status) kept
            ∙ e;
        removed = gone;
        named = named;
        judged = λ v. handle_failed_job-file_path api jitter _ v ∙ named;
      }

  -- For a positive maximum of words, whatever the outside answers, process returns with a PDF job that has a source
  -- file completed or failed, and with the file removed: what removing it brings about in every world holds of the
  -- one that is left. So it is also when the job failed and is to be tried again; and the job names the file still,
  -- also after handleFailedJob has judged it, whatever the store does.
  pub process-IsSpent :
      (s : Run o) (Removed : o.rt.World → Type 0)
      → 0 < w.chunk_max_words
      → s.job.type ≡ pdf_job
      → is_empty s.job.file_path ≡ false
      → ((v : o.rt.World) → Removed (o.remove_file s.job.file_path v))
      → Holds (IsSpent s.job.file_path Removed) (process o ctx w s)
  unfolding process start
  process-IsSpent s Removed h t f removes =
      let s1 = (start o ctx w s).1 in
      and_then-Holds (λ q. Ended o q × request_of q.job ≡ request_of s.job)
        (IsSpent s.job.file_path Removed) (run_job o ctx w _ _ s1) _
        (Holds-Leads (Ended o) (λ q. request_of q.job ≡ request_of s.job) _
          (run_job-Ended o ctx w h _ _ s1)
          (run_job-keeps o ctx w (asks-KeepsJob o ctx w (request_of s.job)) _ _ s1 refl refl))
        (λ q k. finish-IsSpent s Removed t f removes q k.0 k.1)
