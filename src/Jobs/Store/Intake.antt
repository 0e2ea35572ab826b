-- ===== src/Jobs/Store/Intake.antt =====
-- No job that has a payload drops out of the queues when a job is taken out of the queue, put into it or
-- replayed, whatever becomes of the round trips (backend/jobs/store.go).
use text.Mathlib.TextEquality.{eq_iff}
use lok_lingo.Prelude.{
  ℕ, zero, suc, ◌≡◌, refl, sym, ap, ◌∙◌, inl, inr, Bool, true, false, [], ◌∷◌, Option, none, some,
  arith, Bool-cases, take, ◌==◌, if◌then◌else◌,
}
use lok_lingo.Go.Failure.{ok, Result-cases}
use lok_lingo.Jobs.Job.{JobId, Job}
use lok_lingo.Jobs.Redis.{
  Redis, Data, elem, remove_all, count, queue_key, inflight_queue_key, dead_letter_queue_key,
  inflight_zset_key, ◌≟◌,
}
use lok_lingo.Jobs.Store.{
  World, get_job, unless_gone, mark_inflight, dequeue, enqueue, pure, fail, wrapped, ◌>>=◌, unix,
  single, quiet, run,
}
use lok_lingo.Jobs.Store.DeadLetters.{replay_dead, replay_job, replay_script, revived}
use lok_lingo.Jobs.Store.Keeps.{
  Keeps, Keeps-single, Keeps-wrapped, Keeps-pipeline, Keeps-pure, Keeps-bind,
}
use lok_lingo.Jobs.Store.Kept.{IsKept, taken-IsKept, rewritten-IsKept, remove_all-none}
use lok_lingo.Jobs.Store.Safety.{
  lpush-IsKept, ack-IsKept, promote_due_retries-IsKept, recover_stale-IsKept, get_job-IsKept,
}

-- A job that is not found has no payload.
get_job-none :
    (r : Redis) (id : JobId) (w : World r)
    → (get_job r id w).0 ≡ ok none
    → (r.view (get_job r id w).1.db).jobs id ≡ none
unfolding get_job ◌>>=◌ wrapped single pure fail
get_job-none r id w h = ground (arith, r.get_lem id w.db)

module _ (r : Redis) (x : JobId) where
  unless_gone-IsKept :
      (id : JobId) (found : Option Job) (w : World r)
      → (found ≡ none → (r.view w.db).jobs id ≡ none)
      → IsKept x (r.view w.db)
      → IsKept x (r.view (unless_gone r id found w).1.db)
  unless_gone-IsKept id (some job) w e h = h
  unless_gone-IsKept id none w e h = elim (Bool-cases (id ≟ x)) [
    | inr f ↦ (ack-IsKept r x id f).at w h
    | inl f ↦ let q : id ≡ x = (eq_iff id x).0 f in ground (arith, e refl, q, h)
  ]

  -- The payload that was just looked for, and an ack if it is gone.
  fetch-IsKept : (id : JobId) → Keeps r (IsKept x) (◌>>=◌ (get_job r id) (unless_gone r id))
  unfolding ◌>>=◌
  fetch-IsKept id = record {
    at = λ w h. elim (Result-cases (get_job r id w).0) [
      | inr (y, e) ↦ rw (e, ◌>>=◌) ((get_job-IsKept r x id).at w h)
      | inl (found, e) ↦
          rw (e, ◌>>=◌)
            (unless_gone-IsKept id found (get_job r id w).1 (λ q. get_job-none r id w (e ∙ ap ok q))
              ((get_job-IsKept r x id).at w h))
    ];
  }

  mark_inflight-IsKept : (taken : Option JobId) → Keeps r (IsKept x) (mark_inflight r taken)
  mark_inflight-IsKept none = record { at = λ w h. h }
  mark_inflight-IsKept (some id) = record {
    at = λ w h.
        (Keeps-bind {P = IsKept x} _ _
            (Keeps-wrapped _ _ (
              Keeps-single (quiet (r.zadd inflight_zset_key id (unix r w.clock)))
                (λ db k. rw (r.view-zadd) k)))
            (λ _. fetch-IsKept id)).at
          w h;
  }

  pub dequeue-IsKept : Keeps r (IsKept x) (dequeue r)
  unfolding dequeue
  dequeue-IsKept = record {
    at = λ w h.
        (Keeps-bind {P = IsKept x} _ _ (Keeps-wrapped _ _ (recover_stale-IsKept r x _)) (λ _.
            Keeps-bind _ _ (Keeps-wrapped _ _ (promote_due_retries-IsKept r x w.clock)) (λ _.
              Keeps-bind _ _
                (Keeps-wrapped _ _ (
                  Keeps-single (r.brpoplpush queue_key inflight_queue_key) (λ db k.
                    rw (r.view-brpoplpush) (taken-IsKept x (r.view db) (r.view db).queue refl k))))
                mark_inflight-IsKept))).at
          w h;
  }

  pub set-IsKept :
      (id : JobId) (p : r.Payload) (db : r.Db)
      → IsKept x (r.view db)
      → IsKept x (r.view (r.set id p db))
  set-IsKept id p db h = rw (r.view-set) (ground (arith, h))

  pub enqueue-IsKept : (job : Job) → Keeps r (IsKept x) (enqueue r job)
  unfolding enqueue
  enqueue-IsKept job = Keeps-pipeline _ both parts
    where
      both :
          (db : r.Db)
          → IsKept x (r.view db)
          → IsKept x (r.view (r.lpush queue_key job.id (r.set job.id (r.marshal job) db)))
      both db h =
          lpush-IsKept r x queue_key job.id (r.set job.id (r.marshal job) db)
            (set-IsKept job.id (r.marshal job) db h)

      parts :
          (n : ℕ) (db : r.Db)
          → IsKept x (r.view db)
          → IsKept x (
              r.view
                (run (take n (r.set job.id (r.marshal job) ∷ r.lpush queue_key job.id ∷ [])) db))
      parts zero db h = h
      parts (suc zero) db h = set-IsKept job.id (r.marshal job) db h
      parts (suc (suc zero)) db h = both db h
      parts (suc (suc (suc n))) db h = both db h

  count_nil :
      (id : JobId) (db : r.Db)
      → ((r.lrem_all dead_letter_queue_key id db).0 == 0) ≡ true
      → (count id (r.view db).dead == 0) ≡ true
  count_nil id db e = ap (λ n. n == 0) (sym (r.lrem_all-count dead_letter_queue_key id db)) ∙ e

  unmoved :
      (id : JobId) (d : Data r.Payload)
      → (count id d.dead == 0) ≡ true
      → elem x (remove_all id d.dead) ≡ elem x d.dead
  unmoved id d e = ap (elem x) (remove_all-none id d.dead e)

  replayed-IsKept :
      (id : JobId) (p : r.Payload) (db : r.Db)
      → IsKept x (r.view db)
      → IsKept x (r.view (replay_script r id p db).1)
  replayed-IsKept id p db h = elim (Bool-cases ((r.lrem_all dead_letter_queue_key id db).0 == 0)) [
    | inl e ↦
        rw (e)
          (rw (r.view-lrem_all) (ground (arith, h, unmoved id (r.view db) (count_nil id db e))))
    | inr e ↦ rw (e) (
        rw (r.view-lpush, r.view-set, r.view-zrem, r.view-hdel, r.view-lrem_all)
          (rewritten-IsKept x (r.view db) id p h))
  ]

  replay_job-IsKept : (id : JobId) (found : Option Job) → Keeps r (IsKept x) (replay_job r id found)
  replay_job-IsKept id none = record { at = λ w h. h }
  replay_job-IsKept id (some job) = record {
    at = λ w h.
        (Keeps-bind {P = IsKept x} _ _
            (Keeps-wrapped _ _ (
              Keeps-single (replay_script r id (r.marshal (revived w.clock job)))
                (replayed-IsKept id (r.marshal (revived w.clock job)))))
            (λ removed. answer (removed == 0) w.clock job)).at
          w h;
  }
    where
      answer :
          (b : Bool) (now : ℕ) (job : Job)
          → Keeps r (IsKept x) (if b then pure none else pure (some (revived now job)))
      answer true now job = Keeps-pure none
      answer false now job = Keeps-pure (some (revived now job))

  pub replay_dead-IsKept : (id : JobId) → Keeps r (IsKept x) (replay_dead r id)
  unfolding replay_dead
  replay_dead-IsKept id = Keeps-bind _ _ (get_job-IsKept r x id) (replay_job-IsKept id)
