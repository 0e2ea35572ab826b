-- ===== src/Jobs/Loop/Others.antt =====
-- What a round of the worker's loop leaves of the jobs that it does not ack (backend/jobs/worker.go).
use mathlib.Core.Path.{subst}
use lok_lingo.Prelude.{
  ℕ, ◌+◌, ◌≡◌, sym, ap, ◌∙◌, [], inl, inr, Bool, false, some, Bool-cases, Option-cases,
}
use lok_lingo.Go.Text.{Text}
use lok_lingo.Go.Failure.{Result, ok, Result-cases}
use lok_lingo.Jobs.Job.{JobId, Job, pending, failed}
use lok_lingo.Jobs.Redis.{Redis, ◌≟◌}
use lok_lingo.Jobs.Store.{World, update, requeue, queue_stats, dequeue}
use lok_lingo.Jobs.Store.Kept.{IsKept}
use lok_lingo.Jobs.Store.Safety.{requeue-IsKept, dead_letter-IsKept, ack-IsKept}
use lok_lingo.Jobs.Store.Intake.{dequeue-IsKept}
use lok_lingo.Jobs.Store.Calls.{queue_stats-IsKept, update-IsKept}
use lok_lingo.Jobs.Failures.{
  handle_failed_job, schedule_retry, give_up_retry, bury, will_retry, is_queue_overloaded,
  is_failed, retry_delay, failure_reason, counted,
}
use lok_lingo.Jobs.Loop.{redis_api, judge, work_on, cleanup_terminal_chunk_checkpoints, run_round}
use lok_lingo.Jobs.Loop.Waiting.{cleaned-view}

module _ (r : Redis) (jitter : ℕ → ℕ) (x : JobId) where
  abbrev HasJob : World r → Type 0
  HasJob w = IsKept x (r.view w.db)

  overloaded-IsKept :
      (w : World r) → HasJob w → HasJob (is_queue_overloaded (redis_api r) jitter w).1
  unfolding is_queue_overloaded
  overloaded-IsKept w h = elim (Result-cases (queue_stats r w).0) [
    | inl (s, e) ↦ rw (e, is_queue_overloaded) ((queue_stats-IsKept r x).at w h)
    | inr (q, e) ↦ rw (e, is_queue_overloaded) ((queue_stats-IsKept r x).at w h)
  ]

  give_up_retry-IsKept :
      (job : Job) (reason : Text) (w : World r)
      → HasJob w
      → HasJob (give_up_retry (redis_api r) jitter job reason w).1
  give_up_retry-IsKept job reason w h = update-IsKept r x _ w h

  -- The job as a retry or a burial writes it.
  abbrev scheduled : Job → Bool → World r → Job
  scheduled job b w = record (counted job) {
    status = pending;
    error_msg = [];
    next_retry_at = some (w.clock + retry_delay jitter job b);
  }

  abbrev buried : Job → World r → Job
  buried job w = record (counted job) {
    status = failed;
    error_msg = failure_reason job;
    dead_lettered_at = some w.clock;
  }

  schedule_retry-IsKept :
      (job : Job) (b : Bool) (w : World r)
      → HasJob w
      → HasJob (schedule_retry (redis_api r) jitter job b w).1
  unfolding schedule_retry
  schedule_retry-IsKept job b w h =
      let w1 = (update r (scheduled job b w) w).2 in
      let kept = update-IsKept r x (scheduled job b w) w h in
      let delay = retry_delay jitter job b in
      elim (Result-cases (update r (scheduled job b w) w).1) [
        | inr (y, e) ↦ rw (e, schedule_retry) kept
        | inl (u, e) ↦ elim (Result-cases (requeue r job.id delay w1).0) [
          | inl (v, q) ↦
              rw (e, schedule_retry) (rw q ((requeue-IsKept r x job.id delay).at w1 kept))
          | inr (y, q) ↦
              rw (e, schedule_retry)
                (rw q (
                  give_up_retry-IsKept
                    (record (scheduled job b w) { updated_at = (update r (scheduled job b w) w).0 })
                    (failure_reason job) (requeue r job.id delay w1).1
                    ((requeue-IsKept r x job.id delay).at w1 kept)))
        ]
      ]

  bury-IsKept : (job : Job) (w : World r) → HasJob w → HasJob (bury (redis_api r) jitter job w).1
  unfolding bury
  bury-IsKept job w h =
      let kept = update-IsKept r x (buried job w) w h in
      elim (Result-cases (update r (buried job w) w).1) [
        | inr (y, e) ↦ rw (e, bury) kept
        | inl (u, e) ↦
            rw (e, bury)
              ((dead_letter-IsKept r x job.id (failure_reason job)).at (update r (buried job w) w).2
                kept)
      ]

  handle_failed_job-IsKept :
      (job : Job) (w : World r) → HasJob w → HasJob (handle_failed_job (redis_api r) jitter job w).1
  unfolding handle_failed_job
  handle_failed_job-IsKept job w h =
      let (b, w1) = is_queue_overloaded (redis_api r) jitter w in
      elim (Bool-cases (will_retry job b)) [
        | inl e ↦ rw (e, handle_failed_job) (schedule_retry-IsKept job b w1 (overloaded-IsKept w h))
        | inr e ↦ rw (e, handle_failed_job) (bury-IsKept job w1 (overloaded-IsKept w h))
      ]

module _ (r : Redis) (jitter : ℕ → ℕ) (process : Job → World r → Job × World r)
    (clear_chunk_checkpoints : JobId → World r → Result (Unit {0}) × World r)
    (clears : (id : JobId) (w : World r) → r.view (clear_chunk_checkpoints id w).1.db ≡ r.view w.db)
    (x : JobId)
    (processes : (job : Job) (w : World r)
      → IsKept x (r.view w.db)
      → IsKept x (r.view (process job w).1.db)) where
  judge-IsKept :
      (job : Job) (w : World r)
      → IsKept x (r.view w.db)
      → IsKept x (r.view (judge r jitter process clear_chunk_checkpoints job w).1.db)
  unfolding judge
  judge-IsKept job w h = elim (Bool-cases (is_failed job.status)) [
    | inl e ↦ rw (e, judge) (handle_failed_job-IsKept r jitter x job w h)
    | inr e ↦ rw (e, judge) h
  ]

  -- The id that a round acks, when it has taken this job.
  abbrev pub acked_id : Job → World r → JobId
  acked_id job w =
      (judge r jitter process clear_chunk_checkpoints (process job w).0 (process job w).1).0.id

  work_on-IsKept :
      (job : Job) (w : World r)
      → (acked_id job w ≟ x) ≡ false
      → IsKept x (r.view w.db)
      → IsKept x (r.view (work_on r jitter process clear_chunk_checkpoints job w).db)
  unfolding work_on
  work_on-IsKept job w e h =
      let (job1, w1) = process job w in
      let (job2, w2) = judge r jitter process clear_chunk_checkpoints job1 w1 in
      (ack-IsKept r x job2.id e).at
        (cleanup_terminal_chunk_checkpoints r jitter process clear_chunk_checkpoints job2 w2)
        (subst (IsKept x)
          (sym (cleaned-view r jitter process clear_chunk_checkpoints clears job2 w2))
          (judge-IsKept job1 w1 (processes job w h)))

  -- If processing a job and clearing its checkpoints keep a job in the queues, so does a whole round of the loop that does
  -- not ack it, whatever becomes of the round trips, and whether the round takes a job, takes none or fails to.
  pub run_round-IsKept :
      (w : World r)
      → ((job : Job) → (dequeue r w).0 ≡ ok (some job) → (acked_id job (dequeue r w).1 ≟ x) ≡ false)
      → IsKept x (r.view w.db)
      → IsKept x (r.view (run_round r jitter process clear_chunk_checkpoints w).1.db)
  unfolding run_round
  run_round-IsKept w other h =
      let taken = (dequeue-IsKept r x).at w h in
      elim (Result-cases (dequeue r w).0) [
        | inr (e, k) ↦ elim (Bool-cases e.canceled) [
          | inl c ↦ rw (k, run_round) (rw c taken)
          | inr c ↦ rw (k, run_round) (rw c taken)
        ]
        | inl (found, k) ↦ elim (Option-cases found) [
          | inl n ↦ rw (k, run_round) (rw n taken)
          | inr (job, n) ↦
              rw (k, run_round)
                (rw n (work_on-IsKept job (dequeue r w).1 (other job (k ∙ ap ok n)) taken))
        ]
      ]
