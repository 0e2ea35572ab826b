-- ===== src/Examples/Loop.antt =====
-- Rounds of the worker's loop over the server in memory (backend/jobs/worker.go).
use mathlib.Core.Path.{subst}
use lok_lingo.Prelude.{ℕ, ◌≡◌, refl, sym, ap, ◌∙◌, false, List, [], ◌∷◌, Option, some}
use lok_lingo.Go.Text.{codes, contains, to_lower, trim_space, is_space}
use lok_lingo.Go.Failure.{Result, ok}
use lok_lingo.Jobs.Job.{JobId, Job, failed}
use lok_lingo.Jobs.Redis.{pop_last, ◌≟◌, remove_first}
use lok_lingo.Jobs.Store.{
  World, Trip, answered, cut, dequeue, recover_stale, promote_due_retries, wrapped, single, pure,
  ◌>>=◌, get_job, ack, pipeline, update, requeue, queue_stats,
}
use lok_lingo.Jobs.Store.Kept.{IsKept, is_tracked}
use lok_lingo.Jobs.Failures.{
  handle_failed_job, schedule_retry, is_queue_overloaded, classify_job_error,
  is_permanent_job_error, is_retryable_job_error, failure_reason, retry_delay_for_attempt,
}
use lok_lingo.Jobs.Loop.{work_on, run_round, judge, cleanup_terminal_chunk_checkpoints}
use lok_lingo.Jobs.Loop.Others.{acked_id, run_round-IsKept}
use lok_lingo.Examples.Failures.{broken_job}
use lok_lingo.Examples.Memory.{Memory, in_memory, shown}
use lok_lingo.Examples.Redis.{one_queued, at_second, timed_out}

abbrev pub no_random : ℕ → ℕ
no_random d = 0

-- A run that times out.
abbrev timing_out : Job → World in_memory → Job × World in_memory
timing_out job w = (record job { status = failed; error_msg = codes "gateway timeout" }, w)

abbrev pub nothing_to_clear : JobId → World in_memory → Result (Unit {0}) × World in_memory
nothing_to_clear id w = (ok tt, w)

-- Besides the job that waits, a dead one.
abbrev one_dead : Memory
one_dead = record one_queued {
  dead = "j2" ∷ [];
  job_log = ("j2", some broken_job) ∷ ("j1", some broken_job) ∷ [];
  text_log = [];
}

abbrev found_job : Result (Option Job) → Job
found_job (ok (some job)) = job
found_job _ = broken_job

dequeue-one_dead : (dequeue in_memory (at_second 9 [] one_dead)).0 ≡ ok (some broken_job)
unfolding dequeue recover_stale promote_due_retries wrapped single pure ◌>>=◌ pop_last get_job
dequeue-one_dead = refl

acked_id-broken_job :
    (acked_id in_memory no_random timing_out nothing_to_clear
        (λ id w. refl)
        "j2"
        (λ job w h. h)
        broken_job
        (dequeue in_memory (at_second 9 [] one_dead)).1
      ≟ "j2")
    ≡ false
unfolding judge handle_failed_job is_queue_overloaded queue_stats schedule_retry update requeue
    wrapped single pure ◌>>=◌ classify_job_error is_permanent_job_error is_retryable_job_error
    failure_reason contains to_lower trim_space is_space retry_delay_for_attempt dequeue
    recover_stale promote_due_retries pop_last get_job
acked_id-broken_job = refl

run_round-IsKept_example : IsKept "j2" (
    shown
      (run_round in_memory no_random timing_out nothing_to_clear (at_second 9 [] one_dead)).1.db)
run_round-IsKept_example =
    run_round-IsKept in_memory no_random timing_out nothing_to_clear (λ id w. refl) "j2"
      (λ job w h. h) (at_second 9 [] one_dead)
      (λ job e.
        subst
          (λ j.
            (acked_id in_memory no_random timing_out nothing_to_clear (λ id w. refl) "j2"
                (λ job w h. h) j (dequeue in_memory (at_second 9 [] one_dead)).1
              ≟ "j2")
            ≡ false)
          (ap found_job (sym dequeue-one_dead ∙ e)) acked_id-broken_job)
      refl

-- The failure is recorded by a round trip that is lost, and the ack arrives: the job is in no queue.
abbrev lost_update : List Trip
lost_update = answered ∷ answered ∷ answered ∷ answered ∷ answered ∷ cut 0 timed_out ∷ []

work_on-lost_update :
    is_tracked "j1" (
      shown
        (work_on in_memory no_random timing_out nothing_to_clear broken_job
          (at_second 9 lost_update (record one_queued { queue = []; inflight = "j1" ∷ [] }))).db)
    ≡ false
unfolding work_on judge handle_failed_job is_queue_overloaded queue_stats schedule_retry update
    wrapped single pure ◌>>=◌ ack pipeline cleanup_terminal_chunk_checkpoints remove_first
    classify_job_error is_permanent_job_error is_retryable_job_error failure_reason contains
    to_lower trim_space is_space retry_delay_for_attempt
work_on-lost_update = refl
