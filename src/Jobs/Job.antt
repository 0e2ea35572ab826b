-- ===== src/Jobs/Job.antt =====
-- The job and the queue counters (backend/jobs/job.go), with the constants of backend/jobs/config.go.
-- Times are in nanoseconds and `none` is the zero time.Time. Progress is in percent and confidence in
-- ten-thousandths, which hold the values that the program writes.
use Prim.Native.String.{String}
use lok_lingo.Prelude.{ℕ, ◌*◌, Bool, List, Option}
use lok_lingo.Prelude.Int.{ℤ}
use lok_lingo.Go.Text.{Text}

abbrev pub JobId : Type 0
JobId = String

pub data Status : Type 0 where
  pending processing completed failed : Status

pub data JobType : Type 0 where
  text_job pdf_job image_job : JobType

-- `unset` is the empty mode of jobs that were queued before the field was introduced.
pub data Mode : Type 0 where
  unset overlay layout ocr_only : Mode

abbrev pub default_mode : Mode
default_mode = overlay

pub data Stage : Type 0 where
  no_stage detecting_text understanding_layout detecting_languages translating : Stage
  rebuilding_layout rendering retrying fallback_provider stage_completed : Stage

pub record Job : Type 0 where
  pub id : JobId
  pub correlation_id : Text
  pub status : Status
  pub type : JobType
  pub mode : Mode
  pub attempt : ℕ
  pub max_attempts : ℤ
  pub text : Text
  pub source : Text
  pub target : Text
  pub translated_text : Text
  pub output_file_path : Text
  pub error_msg : Text
  pub last_error_msg : Text
  pub next_retry_at : Option ℕ
  pub dead_lettered_at : Option ℕ
  pub created_at : ℕ
  pub updated_at : ℕ
  pub stage : Stage
  pub stage_message : Text
  pub stage_progress : ℕ
  pub warnings : List Text
  pub ocr_confidence : ℕ
  pub file_path : Text
  pub lang : Text
  pub processing_method : Text
  pub total_pages : ℕ
  pub processed_pages : ℕ
  pub ocr_engine : Text
  pub force_ocr : Bool
  pub jpeg_quality : ℤ
  pub bg_alpha : ℤ
  pub text_padding : ℤ
  pub studio_quality : Bool

pub record QueueStats : Type 0 where
  pub queue_depth : ℕ
  pub inflight_depth : ℕ
  pub stuck_jobs : ℕ
  pub retry_backlog : ℕ
  pub dead_letter_count : ℕ

abbrev pub second : ℕ
second = 1_000_000_000

abbrev pub default_job_max_attempts : ℕ
default_job_max_attempts = 3

abbrev pub max_retry_delay : ℕ
max_retry_delay = 60 * second

abbrev pub queue_overload_depth_threshold : ℕ
queue_overload_depth_threshold = 200

abbrev pub retry_backlog_overload_threshold : ℕ
retry_backlog_overload_threshold = 120

abbrev pub stuck_jobs_overload_threshold : ℕ
stuck_jobs_overload_threshold = 20

abbrev pub severe_queue_overload_depth_threshold : ℕ
severe_queue_overload_depth_threshold = 400

abbrev pub severe_retry_backlog_threshold : ℕ
severe_retry_backlog_threshold = 240

abbrev pub severe_stuck_jobs_threshold : ℕ
severe_stuck_jobs_threshold = 40

abbrev pub low_queue_depth_threshold : ℕ
low_queue_depth_threshold = 30

abbrev pub low_retry_backlog_threshold : ℕ
low_retry_backlog_threshold = 10

abbrev pub adaptive_translate_concurrency_ceiling : ℕ
adaptive_translate_concurrency_ceiling = 6

-- effectiveMode
abbrev pub effective_mode : Mode → Mode
effective_mode unset = overlay
effective_mode m = m
