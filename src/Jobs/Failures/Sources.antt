-- ===== src/Jobs/Failures/Sources.antt =====
-- The uploaded source file of a job that failed: the worker removes it, or not, at the end of `process`,
-- before handleFailedJob decides whether the job is tried again (backend/jobs/worker.go).
use lok_lingo.Prelude.{ℕ, ◌≡◌, ap, true, false, none, some, arith}
use lok_lingo.Go.Text.{is_empty}
use lok_lingo.Go.Failure.{Result, ok}
use lok_lingo.Jobs.Job.{JobId, Job, pending, failed, pdf_job, image_job}
use lok_lingo.Jobs.Failures.{
  StoreApi, will_retry, is_queue_overloaded, schedule_retry, bury, handle_failed_job,
  removes_source,
}
use lok_lingo.Jobs.Failures.Verdict.{schedule_retry_lem}

module _ (api : StoreApi) (jitter : ℕ → ℕ) where
  -- Of a PDF job that failed and has a source file the test at the end of `process` holds; if it is then tried again,
  -- by a store that takes updates and requeues, the job that waits for its retry names the source still.
  pub removes_source-pdf_retry :
      (put_back : JobId → ℕ → api.World → Result (Unit {0}) × api.World)
      → api.requeue ≡ some put_back
      → ((job : Job) (w : api.World) → (api.update job w).1 ≡ ok tt)
      → ((id : JobId) (delay : ℕ) (w : api.World) → (put_back id delay w).0 ≡ ok tt)
      → (job : Job) (w : api.World) → job.type ≡ pdf_job
      → job.status ≡ failed
      → is_empty job.file_path ≡ false
      → will_retry job (is_queue_overloaded api jitter w).0 ≡ true
      → let job' = (handle_failed_job api jitter job w).0 in
        (removes_source job ≡ true) × (job'.status ≡ pending) × (job'.file_path ≡ job.file_path)
  unfolding removes_source handle_failed_job
  removes_source-pdf_retry put_back e u q job w t s f r =
      let (b, w1) = is_queue_overloaded api jitter w in
      (
        ground arith,
        rw (r, handle_failed_job)
            (ap (λ (j : Job). j.status) (schedule_retry_lem api jitter put_back e u q job b w1)),
        rw (r, handle_failed_job)
            (ap (λ (j : Job). j.file_path) (schedule_retry_lem api jitter put_back e u q job b w1)),
      )

  -- An image job that failed for good, and was not recorded as dead before, keeps its source: the test at
  -- the end of `process` fails, although it would pass on the job that handleFailedJob leaves.
  pub removes_source-image_dead :
      (job : Job) (w : api.World)
      → job.type ≡ image_job
      → job.status ≡ failed
      → is_empty job.file_path ≡ false
      → job.dead_lettered_at ≡ none
      → will_retry job (is_queue_overloaded api jitter w).0 ≡ false
      → (removes_source job ≡ false)
        × (removes_source (handle_failed_job api jitter job w).0 ≡ true)
  unfolding removes_source handle_failed_job schedule_retry bury
  removes_source-image_dead job w t s f d r = ground arith
