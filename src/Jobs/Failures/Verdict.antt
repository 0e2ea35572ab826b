-- ===== src/Jobs/Failures/Verdict.antt =====
-- What becomes of a job that failed (handleFailedJob in backend/jobs/worker.go).
use lok_lingo.Prelude.{
  ℕ, ◌+◌, ◌≤◌, ◌<◌, ◌≡◌, refl, ◌⊎◌, inl, inr, Bool, true, List, [], ◌∷◌, some, arith, Bool-cases,
  length,
}
use lok_lingo.Prelude.Int.{ℤ, pos}
use lok_lingo.Go.Text.{Text}
use lok_lingo.Go.Failure.{Result, ok}
use lok_lingo.Jobs.Job.{JobId, Job, pending, failed}
use lok_lingo.Jobs.Failures.{
  StoreApi, classify_job_error, at_least_one, failure_reason, will_retry, counted, retry_delay,
  is_queue_overloaded, schedule_retry, bury, handle_failed_job,
}

-- How a job that failed is left.
pub record IsJudged (job job' : Job) : Type 0 where
  pub counted_once : job'.attempt ≡ job.attempt + 1
  pub capped : job'.max_attempts ≡ pos (at_least_one job.max_attempts)
  pub remembered : job'.last_error_msg ≡ failure_reason job
  pub decided :
      ((job'.status ≡ pending)
        × (job'.error_msg ≡ [])
        × ((classify_job_error (failure_reason job)).1 ≡ true)
        × (job'.attempt < at_least_one job.max_attempts))
      ⊎ ((job'.status ≡ failed) × (job'.error_msg ≡ failure_reason job))

module _ (api : StoreApi) (jitter : ℕ → ℕ) where
  schedule_retry-IsJudged :
      (job : Job) (b : Bool) (w : api.World)
      → will_retry job b ≡ true
      → IsJudged job (schedule_retry api jitter job b w).0
  unfolding schedule_retry
  schedule_retry-IsJudged job b w h = ground arith

  bury-IsJudged : (job : Job) (w : api.World) → IsJudged job (bury api jitter job w).0
  unfolding bury
  bury-IsJudged job w = ground arith

  pub bury-failed : (job : Job) (w : api.World) → (bury api jitter job w).0.status ≡ failed
  unfolding bury
  bury-failed job w = ground arith

  -- Whatever the store does, a job that failed has its attempt counted, a limit of at least one attempt,
  -- and its reason remembered. It is left pending only if its error can pass and attempts are left, and
  -- else it is left failed for that reason.
  pub handle_failed_job-IsJudged :
      (job : Job) (w : api.World) → IsJudged job (handle_failed_job api jitter job w).0
  unfolding handle_failed_job
  handle_failed_job-IsJudged job w =
      let (b, w1) = is_queue_overloaded api jitter w in
      elim (Bool-cases (will_retry job b)) [
        | inl e ↦ rw (e, handle_failed_job) (schedule_retry-IsJudged job b w1 e)
        | inr e ↦ rw (e, handle_failed_job) (bury-IsJudged job w1)
      ]

  module _ (put_back : JobId → ℕ → api.World → Result (Unit {0}) × api.World)
      (has_requeue : api.requeue ≡ some put_back)
      (updates : (job : Job) (w : api.World) → (api.update job w).1 ≡ ok tt)
      (requeues : (id : JobId) (delay : ℕ) (w : api.World) → (put_back id delay w).0 ≡ ok tt) where
    abbrev pub waiting : Job → Bool → api.World → Job
    waiting job b w = record (counted job) {
      status = pending;
      error_msg = [];
      next_retry_at = some (api.now w + retry_delay jitter job b);
    }

    pub schedule_retry_lem :
        (job : Job) (b : Bool) (w : api.World)
        → (schedule_retry api jitter job b w).0
          ≡ record (waiting job b w) { updated_at = (api.update (waiting job b w) w).0 }
    unfolding schedule_retry
    schedule_retry_lem job b w =
        rw (updates (waiting job b w) w, schedule_retry) (rw has_requeue (rw requeues refl))

at_least_one_idem : (m : ℤ) → at_least_one (pos (at_least_one m)) ≡ at_least_one m
at_least_one_idem m = ground arith

abbrev pub refailed : Text → Job → Job
refailed message job = record job { status = failed; error_msg = message }

module _ (api : StoreApi) (jitter : ℕ → ℕ) where
  -- A job that fails at each attempt, with these messages, for as long as it is left pending.
  pub fail_again : List Text → Job → api.World → Job × api.World
  fail_again [] job w = (job, w)
  fail_again (message ∷ messages) job w =
      let (job', w') = handle_failed_job api jitter (refailed message job) w in
      elim job'.status [ pending ↦ fail_again messages job' w' | _ ↦ (job', w') ]

  -- Whatever the store does, a job that fails at every attempt is left failed, at the latest when its
  -- attempts are as many as its limit: the messages are one for each attempt that is left.
  pub fail_again-failed :
      (messages : List Text) (job : Job) (w : api.World)
      → 0 < length messages
      → at_least_one job.max_attempts ≤ job.attempt + length messages
      → (fail_again messages job w).0.status ≡ failed
  unfolding fail_again
  fail_again-failed [] job w p h = absurd (omega arith)
  fail_again-failed (message ∷ messages) job w p h =
      let v = handle_failed_job-IsJudged api jitter (refailed message job) w in
      elim v.decided [
        | inr d ↦ rw (d.0, fail_again) d.0
        | inl d ↦
            rw (d.0, fail_again)
              (fail_again-failed messages _ _ (omega (arith, v.counted_once))
                (rw v.capped (rw at_least_one_idem (omega (arith, v.counted_once)))))
      ]
