-- ===== src/Jobs/Loop/Waiting.antt =====
-- What a round of the worker's loop leaves of its job and of the others (backend/jobs/worker.go).
use mathlib.Core.Path.{subst}
use text.Mathlib.TextEquality.{eq_iff}
use lok_lingo.Prelude.{
  ℕ, zero, suc, ◌≡◌, refl, sym, ap, inl, inr, Bool, true, [], ◌∷◌, arith, Bool-cases, take,
}
use lok_lingo.Go.Failure.{Result, ok}
use lok_lingo.Go.Text.{Text}
use lok_lingo.Jobs.Job.{JobId, Job}
use lok_lingo.Jobs.Redis.{
  Redis, Data, inflight_queue_key, dead_letter_queue_key, inflight_zset_key, retry_zset_key,
}
use lok_lingo.Jobs.Store.{
  World, ack, update, requeue, dead_letter, queue_stats, pipeline, wrapped, single, pure, ◌>>=◌,
  run,
}
use lok_lingo.Jobs.Store.Kept.{IsKept, is_there}
use lok_lingo.Jobs.Store.Keeps.{Keeps, Keeps-wrapped, Keeps-pipeline}
use lok_lingo.Jobs.Failures.{
  handle_failed_job, schedule_retry, bury, will_retry, is_queue_overloaded, is_failed, retry_delay,
  failure_reason,
}
use lok_lingo.Jobs.Loop.{
  redis_api, judge, work_on, cleanup_terminal_chunk_checkpoints, is_terminal_pdf,
}

-- The id has a payload, and is in the queue, waits for a retry, or is a dead letter: it does not rest on
-- being in flight.
abbrev pub IsWaiting : {P : Type 0} → JobId → Data P → Type 0
IsWaiting x d = IsKept x (record d { inflight = [] })

module _ (r : Redis) (x : JobId) where
  ack-IsWaiting : (id : JobId) → Keeps r (IsWaiting x) (ack r id)
  unfolding ack
  ack-IsWaiting id = Keeps-wrapped _ _ (Keeps-pipeline _ both parts)
    where
      removed :
          (db : r.Db)
          → IsWaiting x (r.view db)
          → IsWaiting x (r.view (r.lrem_first inflight_queue_key id db).1)
      removed db h = rw (r.view-lrem_first) h

      both :
          (db : r.Db)
          → IsWaiting x (r.view db)
          → IsWaiting x
              (r.view (r.zrem inflight_zset_key id (r.lrem_first inflight_queue_key id db).1))
      both db h = rw (r.view-zrem) (removed db h)

      parts :
          (n : ℕ) (db : r.Db)
          → IsWaiting x (r.view db)
          → IsWaiting x (
              r.view (
                run
                  (take n (
                    (λ d. (r.lrem_first inflight_queue_key id d).1)
                    ∷ r.zrem inflight_zset_key id
                    ∷ []))
                  db))
      parts zero db h = h
      parts (suc zero) db h = removed db h
      parts (suc (suc zero)) db h = both db h
      parts (suc (suc (suc n))) db h = both db h

module _ (r : Redis) (jitter : ℕ → ℕ) where
  -- A world whose trips are all answered.
  abbrev pub calm : r.Db → ℕ → World r
  calm db clock = record { db = db; trips = []; clock = clock }

  overloaded_calm :
      (db : r.Db) (clock : ℕ)
      → (is_queue_overloaded (redis_api r) jitter (calm db clock)).1 ≡ calm db clock
  unfolding is_queue_overloaded queue_stats wrapped single ◌>>=◌ pure
  overloaded_calm db clock = refl

  -- The id has a payload once it is set.
  set-there :
      (id : JobId) (p : r.Payload) (db : r.Db) → is_there ((r.view (r.set id p db)).jobs id) ≡ true
  set-there id p db = rw (r.view-set) (ground (arith, eq_iff id id))

  requeue-answer :
      (id : JobId) (delay : ℕ) (db : r.Db) (clock : ℕ)
      → (requeue r id delay (calm db clock)).0 ≡ ok tt
  unfolding requeue wrapped single
  requeue-answer id zero db clock = refl
  requeue-answer id (suc delay) db clock = refl

  requeue-IsWaiting :
      (id : JobId) (delay : ℕ) (db : r.Db) (clock : ℕ)
      → is_there ((r.view db).jobs id) ≡ true
      → IsWaiting id (r.view (requeue r id delay (calm db clock)).1.db)
  unfolding requeue wrapped single
  requeue-IsWaiting id zero db clock h = rw (r.view-lpush) (ground (arith, eq_iff id id, h))
  requeue-IsWaiting id (suc delay) db clock h = rw (r.view-zadd) (ground (arith, eq_iff id id, h))

  schedule_retry-IsWaiting :
      (job : Job) (b : Bool) (db : r.Db) (clock : ℕ)
      → IsWaiting job.id (r.view (schedule_retry (redis_api r) jitter job b (calm db clock)).1.db)
  unfolding schedule_retry update single
  schedule_retry-IsWaiting job b db clock =
      rw (requeue-answer, schedule_retry)
        (requeue-IsWaiting job.id (retry_delay jitter job b) _ clock (set-there job.id _ db))

  buried-IsWaiting :
      (id : JobId) (reason : Text) (db : r.Db)
      → is_there ((r.view db).jobs id) ≡ true
      → IsWaiting id (
          r.view
            (r.zrem retry_zset_key id (r.hset id reason (r.lpush dead_letter_queue_key id db))))
  buried-IsWaiting id reason db h =
      rw (r.view-zrem, r.view-hset, r.view-lpush) (ground (arith, eq_iff id id, h))

  bury-IsWaiting :
      (job : Job) (db : r.Db) (clock : ℕ)
      → IsWaiting job.id (r.view (bury (redis_api r) jitter job (calm db clock)).1.db)
  unfolding bury update dead_letter pipeline wrapped single
  bury-IsWaiting job db clock =
      buried-IsWaiting job.id (failure_reason job) _ (set-there job.id _ db)

  handle_failed_job-IsWaiting :
      (job : Job) (db : r.Db) (clock : ℕ)
      → IsWaiting job.id (r.view (handle_failed_job (redis_api r) jitter job (calm db clock)).1.db)
  unfolding handle_failed_job is_queue_overloaded queue_stats wrapped single ◌>>=◌ pure
  handle_failed_job-IsWaiting job db clock =
      let b = (is_queue_overloaded (redis_api r) jitter (calm db clock)).0 in
      elim (Bool-cases (will_retry job b)) [
        | inl e ↦ rw (e, handle_failed_job) (schedule_retry-IsWaiting job b db clock)
        | inr e ↦ rw (e, handle_failed_job) (bury-IsWaiting job db clock)
      ]

-- A world whose trips are all answered is calm.
calm_eta :
    (r : Redis) (jitter : ℕ → ℕ) (w : World r) → w.trips ≡ [] → calm r jitter w.db w.clock ≡ w
calm_eta r jitter w e = ap (λ t. record w { trips = t }) (sym e)

module _ (r : Redis) (jitter : ℕ → ℕ) (process : Job → World r → Job × World r)
    (clear_chunk_checkpoints : JobId → World r → Result (Unit {0}) × World r)
    (clears : (id : JobId) (w : World r)
      → r.view (clear_chunk_checkpoints id w).1.db ≡ r.view w.db) where
  abbrev cleaned : Job → World r → World r
  cleaned = cleanup_terminal_chunk_checkpoints r jitter process clear_chunk_checkpoints

  pub cleaned-view : (job : Job) (w : World r) → r.view (cleaned job w).db ≡ r.view w.db
  unfolding cleanup_terminal_chunk_checkpoints
  cleaned-view job w = elim (Bool-cases (is_terminal_pdf job.type job.status)) [
    | inl e ↦ rw (e, cleanup_terminal_chunk_checkpoints) (clears job.id w)
    | inr e ↦ rw (e, cleanup_terminal_chunk_checkpoints) refl
  ]

  judge-IsWaiting :
      (job : Job) (w : World r)
      → is_failed job.status ≡ true
      → w.trips ≡ []
      → IsWaiting job.id (r.view (judge r jitter process clear_chunk_checkpoints job w).1.db)
  unfolding judge
  judge-IsWaiting job w f e =
      rw (f, judge)
        (subst (λ v. IsWaiting job.id (r.view (handle_failed_job (redis_api r) jitter job v).1.db))
          (calm_eta r jitter w e) (handle_failed_job-IsWaiting r jitter job w.db w.clock))

  -- If clearing the checkpoints leaves the queues alone, a job that is left failed by `process` is not lost by its ack: when every
  -- round trip from there on is answered, it is afterwards queued, or waiting for its retry, or a dead letter, and has a payload.
  pub work_on-IsWaiting :
      (job : Job) (w : World r)
      → is_failed (process job w).0.status ≡ true
      → (process job w).1.trips ≡ []
      → IsWaiting
          (process job w).0.id
          (r.view (work_on r jitter process clear_chunk_checkpoints job w).db)
  unfolding work_on
  work_on-IsWaiting job w f e =
      let (job1, w1) = process job w in
      let (job2, w2) = judge r jitter process clear_chunk_checkpoints job1 w1 in
      (ack-IsWaiting r job1.id job2.id).at (cleaned job2 w2)
        (subst (IsWaiting job1.id) (sym (cleaned-view job2 w2)) (judge-IsWaiting job1 w1 f e))
