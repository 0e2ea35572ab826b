-- ===== src/Examples/Failures.antt =====
-- Failed jobs against a store that takes everything and records what it is asked.
use lok_lingo.Prelude.{
  if◌then◌else◌, ℕ, ◌+◌, ◌/◌, ◌≤◌, ◌≡◌, refl, max, true, false, [], none, some, arith,
}
use lok_lingo.Prelude.Int.{pos}
use lok_lingo.Go.Text.{codes, contains, to_lower, trim_space, is_space}
use lok_lingo.Go.Failure.{ok}
use lok_lingo.Jobs.Job.{Job, QueueStats, failed, pdf_job, image_job, unset, no_stage}
use lok_lingo.Jobs.Failures.{
  StoreApi, handle_failed_job, is_queue_overloaded, will_retry, classify_job_error,
  is_permanent_job_error, is_retryable_job_error, failure_reason, adapt_concurrency, is_severe,
  is_overload,
}
use lok_lingo.Jobs.Failures.Load.{adapt_concurrency_bounds}
use lok_lingo.Jobs.Failures.Verdict.{IsJudged, handle_failed_job-IsJudged}
use lok_lingo.Jobs.Failures.Rescheduled.{
  IsAttemptLimit, IsRescheduled, handle_failed_job-IsRescheduled,
}

abbrev quiet : QueueStats
quiet = record {
  queue_depth = 10;
  inflight_depth = 1;
  stuck_jobs = 0;
  retry_backlog = 2;
  dead_letter_count = 0;
}

abbrev busy : QueueStats
busy = record quiet { queue_depth = 250 }

-- Its world is the time.
abbrev pub willing : StoreApi
willing = record {
  World = ℕ;
  update = λ job w. (w, ok tt, w);
  requeue = some (λ id delay w. (ok tt, w));
  dead_letter = some (λ id reason w. (ok tt, w));
  queue_stats = some (λ w. (ok quiet, w));
  now = λ w. w;
}

abbrev no_jitter : ℕ → ℕ
no_jitter d = 0

abbrev pub broken_job : Job
broken_job = record {
  id = "j1";
  correlation_id = [];
  status = failed;
  type = pdf_job;
  mode = unset;
  attempt = 0;
  max_attempts = pos 3;
  text = [];
  source = [];
  target = [];
  translated_text = [];
  output_file_path = [];
  error_msg = codes "Gateway Timeout";
  last_error_msg = [];
  next_retry_at = none;
  dead_lettered_at = none;
  created_at = 0;
  updated_at = 0;
  stage = no_stage;
  stage_message = [];
  stage_progress = 0;
  warnings = [];
  ocr_confidence = 0;
  file_path = codes "/tmp/a.pdf";
  lang = [];
  processing_method = [];
  total_pages = 0;
  processed_pages = 0;
  ocr_engine = [];
  force_ocr = false;
  jpeg_quality = pos 0;
  bg_alpha = pos 0;
  text_padding = pos 0;
  studio_quality = false;
}

abbrev dead_image : Job
dead_image = record broken_job { type = image_job; error_msg = codes "bad pixels" }

timeout_retried : will_retry broken_job false ≡ true
unfolding classify_job_error is_permanent_job_error is_retryable_job_error failure_reason contains
    to_lower trim_space is_space
timeout_retried = refl

image_not_retried : will_retry dead_image false ≡ false
unfolding classify_job_error is_permanent_job_error is_retryable_job_error failure_reason contains
    to_lower trim_space is_space
image_not_retried = refl

not_overloaded : is_queue_overloaded willing no_jitter 7 ≡ (false, 7)
unfolding is_queue_overloaded
not_overloaded = refl

adapt_concurrency_bounds_example :
    let (n, e) = adapt_concurrency 3 busy in
    (1 ≤ n)
    × (n ≤ 3 + 1)
    × (n ≤ max 3 6)
    × (n ≤ (if is_severe busy then 1 else if is_overload busy then max 1 (3 / 2) else 3 + 1))
adapt_concurrency_bounds_example = adapt_concurrency_bounds 3 busy (omega arith)

handle_failed_job-IsJudged_example :
    IsJudged broken_job (handle_failed_job willing no_jitter broken_job 7).0
handle_failed_job-IsJudged_example = handle_failed_job-IsJudged willing no_jitter broken_job 7

three-IsAttemptLimit : IsAttemptLimit (pos 3) 3
three-IsAttemptLimit = record { positive = λ n e. cc; at_zero = λ e. refl; negative = λ n e. refl }

handle_failed_job-IsRescheduled_example :
    IsRescheduled quiet 3 7 broken_job (handle_failed_job willing no_jitter broken_job 7).0
handle_failed_job-IsRescheduled_example =
    handle_failed_job-IsRescheduled willing no_jitter (λ d. omega arith) (λ id delay w. (ok tt, w))
      refl (λ job w. refl) (λ id delay w. refl) (λ w. (ok quiet, w)) refl broken_job 7 quiet 3 refl
      three-IsAttemptLimit
