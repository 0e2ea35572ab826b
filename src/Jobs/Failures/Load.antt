-- ===== src/Jobs/Failures/Load.antt =====
-- The concurrency that the load of the queue allows (effectiveTranslateConcurrency in
-- backend/jobs/worker.go).
use lok_lingo.Prelude.{if◌then◌else◌, ℕ, ◌+◌, ◌/◌, ◌≤◌, max, arith}
use lok_lingo.Jobs.Job.{QueueStats}
use lok_lingo.Jobs.Failures.{adapt_concurrency, is_severe, is_overload}

-- For a base of at least 1 the concurrency is at least 1, is over the base by at most 1, and passes not
-- both the base and 6; it is at most 1 under a severe load, and at most half the base, or 1, under an overload.
pub adapt_concurrency_bounds :
    (base : ℕ) (stats : QueueStats)
    → 1 ≤ base
    → let (n, e) = adapt_concurrency base stats in
      (1 ≤ n)
      × (n ≤ base + 1)
      × (n ≤ max base 6)
      × (n ≤ (
          if is_severe stats then 1 else if is_overload stats then max 1 (base / 2) else base + 1))
unfolding adapt_concurrency
adapt_concurrency_bounds base stats h = ground arith

-- For a base of at least 1, a queue that is nowhere less loaded gets no more concurrency.
pub adapt_concurrency_mono :
    (base : ℕ) (s t : QueueStats)
    → 1 ≤ base
    → s.queue_depth ≤ t.queue_depth
    → s.retry_backlog ≤ t.retry_backlog
    → s.stuck_jobs ≤ t.stuck_jobs
    → (adapt_concurrency base t).0 ≤ (adapt_concurrency base s).0
unfolding adapt_concurrency
adapt_concurrency_mono base s t h p q r = ground arith
