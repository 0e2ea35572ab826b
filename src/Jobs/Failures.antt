-- ===== src/Jobs/Failures.antt =====
-- What a worker does with a job that failed (backend/jobs/worker.go): the kind of its error, the delay
-- before the next attempt, the load of the queue, and handleFailedJob over the store's interface.
pub mod Kinds
pub mod Delay
pub mod Load
pub mod Verdict
pub mod Rescheduled
pub mod Sources
use lok_lingo.Prelude.{
  ℕ, zero, suc, ◌+◌, ◌-◌, ◌*◌, ◌/◌, Bool, true, false, ◌&&◌, ◌||◌, not, List, [], ◌∷◌, Option, none,
  some, leb, ltb, ◌==◌, if◌then◌else◌,
}
use lok_lingo.Prelude.Int.{ℤ, pos, negsuc}
use lok_lingo.Go.Text.{Text, codes, is_empty, to_lower, trim_space, contains}
use lok_lingo.Go.Failure.{GoError, Result, ok, err}
use lok_lingo.Jobs.Job.{
  JobId, Job, Status, pending, processing, completed, failed, JobType, text_job, pdf_job, image_job,
  QueueStats, second, default_job_max_attempts, max_retry_delay, queue_overload_depth_threshold,
  retry_backlog_overload_threshold, stuck_jobs_overload_threshold,
  severe_queue_overload_depth_threshold, severe_retry_backlog_threshold,
  severe_stuck_jobs_threshold, low_queue_depth_threshold, low_retry_backlog_threshold,
  adaptive_translate_concurrency_ceiling,
}
pub use lok_lingo.Jobs.Failures.Kinds.{ErrorKind, permanent, transient, unknown}
unfoldable pub use lok_lingo.Jobs.Failures.Kinds.{
  is_retryable_job_error, is_permanent_job_error, classify_job_error, double_delay,
  retry_delay_for_attempt,
}

-- The store as the worker sees it. A method that the store may lack, which the worker asks for by a
-- type assertion, is an Option.
pub record StoreApi : Type 1 where
  pub World : Type 0
  -- overwrites the stored job; the number is the UpdatedAt that the call leaves in the job
  pub update : Job → World → ℕ × Result (Unit {0}) × World
  pub requeue : Option (JobId → ℕ → World → Result (Unit {0}) × World)
  pub dead_letter : Option (JobId → Text → World → Result (Unit {0}) × World)
  pub queue_stats : Option (World → Result QueueStats × World)
  -- time.Now()
  pub now : World → ℕ

abbrev pub is_overload : QueueStats → Bool
is_overload stats =
    leb queue_overload_depth_threshold stats.queue_depth
    || leb retry_backlog_overload_threshold stats.retry_backlog
    || leb stuck_jobs_overload_threshold stats.stuck_jobs

abbrev pub is_severe : QueueStats → Bool
is_severe stats =
    leb severe_queue_overload_depth_threshold stats.queue_depth
    || leb severe_retry_backlog_threshold stats.retry_backlog
    || leb severe_stuck_jobs_threshold stats.stuck_jobs

abbrev pub is_low : QueueStats → Bool
is_low stats =
    leb stats.queue_depth low_queue_depth_threshold
    && leb stats.retry_backlog low_retry_backlog_threshold
    && stats.stuck_jobs == 0

-- The counters of the adaptive concurrency.
pub data LoadEvent : Type 0 where
  clamped reduced boosted : LoadEvent

-- The body of effectiveTranslateConcurrency once the statistics are there, with the counter that it
-- raises.
unfoldable pub adapt_concurrency : ℕ → QueueStats → ℕ × Option LoadEvent
adapt_concurrency base stats =
    if is_severe stats
    then (1, some clamped)
    else if is_overload stats
    then (if ltb (base / 2) 1 then 1 else base / 2, some reduced)
    else if is_low stats && ltb base adaptive_translate_concurrency_ceiling
    then (base + 1, some boosted)
    else (base, none)

-- if job.MaxAttempts <= 0 { job.MaxAttempts = defaultJobMaxAttempts }
abbrev pub at_least_one : ℤ → ℕ
at_least_one (pos zero) = default_job_max_attempts
at_least_one (pos (suc n)) = suc n
at_least_one (negsuc n) = default_job_max_attempts

unfoldable pub failure_reason : Job → Text
failure_reason job =
    if is_empty (trim_space job.error_msg)
    then codes "job failed without an error message"
    else trim_space job.error_msg

abbrev pub effective_max : ℕ → Bool → ℕ
effective_max max_attempts overloaded =
    if overloaded && ltb 1 max_attempts then max_attempts - 1 else max_attempts

-- The job once its attempt is counted.
abbrev pub counted : Job → Job
counted job = record job {
  max_attempts = pos (at_least_one job.max_attempts);
  attempt = job.attempt + 1;
  last_error_msg = failure_reason job;
}

-- The job is tried again: its error can pass, and attempts are left.
abbrev pub will_retry : Job → Bool → Bool
will_retry job overloaded =
    (classify_job_error (failure_reason job)).1
    && ltb (job.attempt + 1) (effective_max (at_least_one job.max_attempts) overloaded)

abbrev pub retry_delay : (ℕ → ℕ) → Job → Bool → ℕ
retry_delay jitter job overloaded =
    retry_delay_for_attempt jitter (job.attempt + 1) + (if overloaded then 3 * second else 0)

module _ (api : StoreApi) (jitter : ℕ → ℕ) where
  open api use {World, update, requeue, dead_letter, queue_stats, now}

  unfoldable pub is_queue_overloaded : World → Bool × World
  is_queue_overloaded w = elim queue_stats [
    | none ↦ (false, w)
    | some stats_of ↦
        let (r, w') = stats_of w in
        elim r [ ok stats ↦ (is_overload stats, w') | err e ↦ (false, w') ]
  ]

  unfoldable pub effective_translate_concurrency : ℕ → World → (ℕ × Option LoadEvent) × World
  effective_translate_concurrency translate_concurrency w =
      let base : ℕ = if translate_concurrency == 0 then 1 else translate_concurrency in
      elim queue_stats [
        | none ↦ ((base, none), w)
        | some stats_of ↦
            let (r, w') = stats_of w in
            elim r [ ok stats ↦ (adapt_concurrency base stats, w') | err e ↦ ((base, none), w') ]
      ]

  -- w.store.Update(ctx, job), which stamps the job that it is given
  abbrev pub save : Job → World → Job × Result (Unit {0}) × World
  save job w = let (t, r, w') = update job w in (record job { updated_at = t }, r, w')

  -- The store cannot schedule the retry, or failed to: the job is a failure after all.
  abbrev pub give_up_retry : Job → Text → World → Job × World
  give_up_retry job reason w =
      let (job', r, w') = save (record job { status = failed; error_msg = reason }) w in (job', w')

  unfoldable pub schedule_retry : Job → Bool → World → Job × World
  schedule_retry job overloaded w =
      let delay = retry_delay jitter job overloaded in
      let (job', r, w1) =
        save
          (record (counted job) {
            status = pending;
            error_msg = [];
            next_retry_at = some (now w + delay);
          })
          w in
      elim r [
        | err e ↦ (job', w1)
        | ok _ ↦ elim requeue [
          | none ↦ give_up_retry job' (failure_reason job) w1
          | some put_back ↦
              let (q, w2) = put_back job'.id delay w1 in
              elim q [ ok _ ↦ (job', w2) | err e ↦ give_up_retry job' (failure_reason job) w2 ]
        ]
      ]

  unfoldable pub bury : Job → World → Job × World
  bury job w =
      let (job', r, w1) =
        save
          (record (counted job) {
            status = failed;
            error_msg = failure_reason job;
            dead_lettered_at = some (now w);
          })
          w in
      elim r [
        | err e ↦ (job', w1)
        | ok _ ↦ elim dead_letter [
          | none ↦ (job', w1)
          | some record_dead ↦
              let (q, w2) = record_dead job'.id (failure_reason job) w1 in (job', w2)
        ]
      ]

  unfoldable pub handle_failed_job : Job → World → Job × World
  handle_failed_job job w =
      let (overloaded, w1) = is_queue_overloaded w in
      if will_retry job overloaded then schedule_retry job overloaded w1 else bury job w1

abbrev pub is_completed : Status → Bool
is_completed completed = true
is_completed _ = false

abbrev pub is_failed : Status → Bool
is_failed failed = true
is_failed _ = false

abbrev pub is_set : Option ℕ → Bool
is_set none = false
is_set (some t) = true

abbrev pub wants_clean_up : JobType → Status → Option ℕ → Bool
wants_clean_up pdf_job status dead = is_completed status || is_failed status
wants_clean_up image_job status dead = is_completed status || (is_failed status && is_set dead)
wants_clean_up text_job status dead = false

-- The deferred removal of the source file at the end of `process`: whether the file is removed.
unfoldable pub removes_source : Job → Bool
removes_source job =
    wants_clean_up job.type job.status job.dead_lettered_at && not (is_empty job.file_path)
