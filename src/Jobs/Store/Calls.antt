-- ===== src/Jobs/Store/Calls.antt =====
-- Sequences of calls of the store's methods, with any trips and any clock between them
-- (backend/jobs/store.go): no job that has a payload drops out of the queues before its ack.
use lok_lingo.Prelude.{ℕ, ◌≡◌, Bool, false, List, [], ◌∷◌}
use lok_lingo.Go.Text.{Text}
use lok_lingo.Jobs.Job.{JobId, Job}
use lok_lingo.Jobs.Redis.{Redis, ◌≟◌}
use lok_lingo.Jobs.Store.{
  World, Trip, enqueue, get_job, update, promote_due_retries, ack, recover_stale, dequeue, requeue,
  dead_letter, queue_stats, quiet, single, wrapped,
}
use lok_lingo.Jobs.Store.DeadLetters.{replay_dead, list_dead, list_entries}
use lok_lingo.Jobs.Store.Kept.{IsKept}
use lok_lingo.Jobs.Store.Keeps.{Keeps, Keeps-single, Keeps-wrapped, Keeps-bind, Keeps-pure}
use lok_lingo.Jobs.Store.Safety.{
  get_job-IsKept, promote_due_retries-IsKept, ack-IsKept, recover_stale-IsKept, requeue-IsKept,
  dead_letter-IsKept,
}
use lok_lingo.Jobs.Store.Intake.{set-IsKept, enqueue-IsKept, dequeue-IsKept, replay_dead-IsKept}

-- A call of one of the store's methods.
pub data Call : Type 0 where
  call_enqueue : Job → Call
  call_get_job : JobId → Call
  call_update : Job → Call
  call_dequeue : Call
  call_ack : JobId → Call
  call_requeue : JobId → ℕ → Call
  call_dead_letter : JobId → Text → Call
  call_replay_dead : JobId → Call
  call_recover_stale : ℕ → Call
  call_promote : ℕ → Call
  call_list_dead : ℕ → Call
  call_queue_stats : Call

module _ (r : Redis) where
  -- The world after the call.
  abbrev pub after : Call → World r → World r
  after (call_enqueue job) w = (enqueue r job w).1
  after (call_get_job id) w = (get_job r id w).1
  after (call_update job) w = (update r job w).2
  after call_dequeue w = (dequeue r w).1
  after (call_ack id) w = (ack r id w).1
  after (call_requeue id delay) w = (requeue r id delay w).1
  after (call_dead_letter id reason) w = (dead_letter r id reason w).1
  after (call_replay_dead id) w = (replay_dead r id w).1
  after (call_recover_stale age) w = (recover_stale r age w).1
  after (call_promote now) w = (promote_due_retries r now w).1
  after (call_list_dead limit) w = (list_dead r limit w).1
  after call_queue_stats w = (queue_stats r w).1

-- Whether the call is the ack of the id.
abbrev pub acks : JobId → Call → Bool
acks x (call_ack id) = id ≟ x
acks x _ = false

-- Calls that lead from the first world to the second, none of them the ack of the id.
pub data Unacked (r : Redis) (x : JobId) : World r → World r → Type 0 where
  stop : {w : World r} → Unacked r x w w
  call :
      {w v : World r}
      → (c : Call) → acks x c ≡ false
      → Unacked r x (after r c w) v
      → Unacked r x w v
  -- time passes, and other trips are ahead
  wait :
      {w v : World r}
      → (trips : List Trip) → (clock : ℕ)
      → Unacked r x (record w { trips = trips; clock = clock }) v
      → Unacked r x w v

module _ (r : Redis) (x : JobId) where
  abbrev StillKept : World r → Type 0
  StillKept w = IsKept x (r.view w.db)

  -- A command that only reads.
  read-IsKept :
      {A : Type 0} (prefix : Text) (f : r.Db → A)
      → Keeps r (IsKept x) (wrapped prefix (single (λ db. (f db, db))))
  read-IsKept prefix f = Keeps-wrapped _ _ (Keeps-single _ (λ db h. h))

  list_entries-IsKept : (ids : List JobId) → Keeps r (IsKept x) (list_entries r ids)
  unfolding list_entries
  list_entries-IsKept [] = Keeps-pure []
  list_entries-IsKept (id ∷ ids) = Keeps-bind _ _ (read-IsKept _ (r.hget id)) (λ reason.
      Keeps-bind _ _ (Keeps-wrapped _ _ (get_job-IsKept r x id))
        (λ job. Keeps-bind _ _ (list_entries-IsKept ids) (λ rest. Keeps-pure _)))

  list_dead-IsKept : (limit : ℕ) → Keeps r (IsKept x) (list_dead r limit)
  unfolding list_dead
  list_dead-IsKept limit = Keeps-bind _ _ (read-IsKept _ _) list_entries-IsKept

  pub queue_stats-IsKept : Keeps r (IsKept x) (queue_stats r)
  unfolding queue_stats
  queue_stats-IsKept = record {
    at = λ w h.
        (Keeps-bind {P = IsKept x} _ _ (read-IsKept _ _) (λ a.
            Keeps-bind _ _ (read-IsKept _ _) (λ b. Keeps-bind _ _ (read-IsKept _ _) (λ c.
              Keeps-bind _ _ (read-IsKept _ _)
                (λ d. Keeps-bind _ _ (read-IsKept _ _) (λ e. Keeps-pure _)))))).at
          w h;
  }

  pub update-IsKept : (job : Job) (w : World r) → StillKept w → StillKept (update r job w).2
  unfolding update
  update-IsKept job w h =
      (Keeps-single {P = IsKept x}
          (quiet (r.set job.id (r.marshal (record job { updated_at = w.clock }))))
          (set-IsKept r x job.id (r.marshal (record job { updated_at = w.clock })))).at
        w h

  after-IsKept : (c : Call) (w : World r) → acks x c ≡ false → StillKept w → StillKept (after r c w)
  after-IsKept (call_enqueue job) w e h = (enqueue-IsKept r x job).at w h
  after-IsKept (call_get_job id) w e h = (get_job-IsKept r x id).at w h
  after-IsKept (call_update job) w e h = update-IsKept job w h
  after-IsKept call_dequeue w e h = (dequeue-IsKept r x).at w h
  after-IsKept (call_ack id) w e h = (ack-IsKept r x id e).at w h
  after-IsKept (call_requeue id delay) w e h = (requeue-IsKept r x id delay).at w h
  after-IsKept (call_dead_letter id reason) w e h = (dead_letter-IsKept r x id reason).at w h
  after-IsKept (call_replay_dead id) w e h = (replay_dead-IsKept r x id).at w h
  after-IsKept (call_recover_stale age) w e h = (recover_stale-IsKept r x age).at w h
  after-IsKept (call_promote now) w e h = (promote_due_retries-IsKept r x now).at w h
  after-IsKept (call_list_dead limit) w e h = (list_dead-IsKept limit).at w h
  after-IsKept call_queue_stats w e h = queue_stats-IsKept.at w h

-- If a job has a payload and is in the queue, in flight, waiting for a retry or a dead letter, then it still is
-- after any sequence of calls of the store without its own ack, whatever becomes of their round trips.
pub Unacked-IsKept :
    (r : Redis) (x : JobId) (w v : World r)
    → Unacked r x w v
    → IsKept x (r.view w.db)
    → IsKept x (r.view v.db)
Unacked-IsKept r x w v stop h = h
Unacked-IsKept r x w v (call c e rest) h = Unacked-IsKept r x _ v rest (after-IsKept r x c w e h)
Unacked-IsKept r x w v (wait trips clock rest) h = Unacked-IsKept r x _ v rest h
