-- ===== src/Examples/Redis.antt =====
-- The theorems on the job store at concrete inputs (backend/jobs/store.go).
use lok_lingo.Prelude.{ℕ, ◌*◌, ◌≡◌, refl, true, List, [], ◌∷◌, Option, some}
use lok_lingo.Prelude.Int.{ℤ, pos}
use lok_lingo.Go.Text.{codes}
use lok_lingo.Jobs.Job.{second}
use lok_lingo.Go.Failure.{plain_error, GoError}
use lok_lingo.Jobs.Store.Kept.{IsKept}
use lok_lingo.Examples.Failures.{broken_job}
use lok_lingo.Jobs.Redis.{pop_last, elem}
use lok_lingo.Jobs.Store.{
  World, Trip, wrapped, single, ◌>>=◌, dequeue, recover_stale, promote_due_retries, answered, cut,
}
use lok_lingo.Jobs.Store.Calls.{after, call_dequeue, call_requeue, stop, call, wait, Unacked-IsKept}
use lok_lingo.Jobs.Store.Recovery.{recover_stale-queue}
use lok_lingo.Examples.Memory.{Memory, in_memory, shown}

abbrev pub timed_out : GoError
timed_out = record (plain_error (codes "i/o timeout")) { net_timeout = true }

-- One job waits in the queue.
abbrev pub one_queued : Memory
one_queued = record {
  queue = "j1" ∷ [];
  inflight = [];
  dead = [];
  inflight_log = [];
  retry_log = [];
  meta_log = [];
  job_log = ("j1", some broken_job) ∷ [];
  text_log = [];
}

-- One job is in flight since the time, one waits for its retry.
abbrev one_taken : Option ℤ → Memory
one_taken since = record one_queued {
  queue = [];
  inflight = "j1" ∷ [];
  inflight_log = ("j1", since) ∷ [];
  retry_log = ("j2", some (pos 100)) ∷ [];
}

abbrev pub at_second : ℕ → List Trip → Memory → World in_memory
at_second n trips m = record { db = m; trips = trips; clock = n * second }

-- The mark of the job that was taken is lost on the way: the dequeue fails, and the job is in flight unmarked.
abbrev lost_mark : List Trip
lost_mark = answered ∷ answered ∷ answered ∷ cut 0 timed_out ∷ []

dequeue-lost_mark :
    ((dequeue in_memory (at_second 50 lost_mark one_queued)).1.db.inflight ≡ "j1" ∷ [])
    × ((dequeue in_memory (at_second 50 lost_mark one_queued)).1.db.inflight_log ≡ [])
unfolding dequeue recover_stale promote_due_retries wrapped single ◌>>=◌ pop_last
dequeue-lost_mark = (refl, refl)

Unacked-IsKept_example : IsKept "j1" (
    shown
      (after in_memory
        (call_requeue "j1" 0)
        (record (after in_memory call_dequeue (at_second 50 lost_mark one_queued)) {
          trips = [];
          clock = 7;
        })).db)
Unacked-IsKept_example =
    Unacked-IsKept in_memory "j1" (at_second 50 lost_mark one_queued) _
      (call call_dequeue refl (wait [] 7 (call (call_requeue "j1" 0) refl stop))) refl

recover_stale-queue_example :
    elem "j1"
      (shown (recover_stale in_memory 0 (at_second 2000 [] (one_taken (some (pos 5))))).1.db).queue
    ≡ true
recover_stale-queue_example =
    recover_stale-queue in_memory "j1" 0 (at_second 2000 [] (one_taken (some (pos 5)))) refl refl
      refl
