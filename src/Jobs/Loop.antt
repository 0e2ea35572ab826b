-- ===== src/Jobs/Loop.antt =====
-- The loop of Worker.Run over the Redis store (backend/jobs/worker.go): a job is taken, processed, judged if
-- it failed, and acked. `process` and the clearing of the chunk checkpoints are arguments.
pub mod Waiting
pub mod Others
pub mod Settled
use lok_lingo.Prelude.{ℕ, ◌+◌, ◌*◌, Bool, true, false, List, [], Option, none, some, if◌then◌else◌}
use lok_lingo.Go.Failure.{GoError, Result, ok, err}
use lok_lingo.Jobs.Job.{
  JobId, Job, JobType, Status, text_job, pdf_job, image_job, pending, processing, completed, failed,
  second,
}
use lok_lingo.Jobs.Redis.{Redis}
use lok_lingo.Jobs.Store.{World, update, requeue, dead_letter, queue_stats, dequeue, ack}
use lok_lingo.Jobs.Failures.{StoreApi, handle_failed_job, is_failed}

-- The Redis store as the worker sees it.
abbrev pub redis_api : Redis → StoreApi
redis_api r = record {
  World = World r;
  update = update r;
  requeue = some (requeue r);
  dead_letter = some (dead_letter r);
  queue_stats = some (queue_stats r);
  now = λ w. w.clock;
}

-- The job type and the states that cleanupTerminalChunkCheckpoints clears.
abbrev pub is_terminal_pdf : JobType → Status → Bool
is_terminal_pdf pdf_job completed = true
is_terminal_pdf pdf_job failed = true
is_terminal_pdf _ _ = false

-- How a round ends: with the loop's end, or with the next round.
pub data Round : Type 0 where
  stopped continued : Round

module _ (r : Redis) (jitter : ℕ → ℕ) (process : Job → World r → Job × World r)
    (clear_chunk_checkpoints : JobId → World r → Result (Unit {0}) × World r) where
  unfoldable pub judge : Job → World r → Job × World r
  judge job w =
      if is_failed job.status then handle_failed_job (redis_api r) jitter job w else (job, w)

  unfoldable pub cleanup_terminal_chunk_checkpoints : Job → World r → World r
  cleanup_terminal_chunk_checkpoints job w =
      if is_terminal_pdf job.type job.status then (clear_chunk_checkpoints job.id w).1 else w

  -- What is done with a job that was taken.
  unfoldable pub work_on : Job → World r → World r
  work_on job w =
      let (job1, w1) = process job w in
      let (job2, w2) = judge job1 w1 in
      (ack r job2.id (cleanup_terminal_chunk_checkpoints job2 w2)).1

  abbrev pub after_dequeue : Result (Option Job) → World r → Round × World r
  after_dequeue (err e) w =
      if e.canceled then (stopped, w) else (continued, record w { clock = w.clock + 2 * second })
  after_dequeue (ok none) w = (continued, w)
  after_dequeue (ok (some job)) w = (continued, work_on job w)

  -- One round, when the context is not done.
  unfoldable pub run_round : World r → Round × World r
  run_round w = let (q, w') = dequeue r w in after_dequeue q w'
