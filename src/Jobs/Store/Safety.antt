-- ===== src/Jobs/Store/Safety.antt =====
-- No job that has a payload drops out of the queues: what each method of the store that removes it from one
-- place keeps, whatever becomes of its round trips (backend/jobs/store.go).
use lok_lingo.Prelude.{
  ℕ, zero, suc, ◌+◌, ◌≡◌, inl, inr, false, List, [], ◌∷◌, Option, none, some, Bool-cases, take,
}
use lok_lingo.Go.Text.{Text}
use lok_lingo.Jobs.Job.{JobId, Job}
use lok_lingo.Jobs.Redis.{
  Redis, Data, elem, ListKey, queue_key, inflight_queue_key, dead_letter_queue_key,
  inflight_zset_key, retry_zset_key, ◌≟◌,
}
use lok_lingo.Jobs.Store.{
  promote_one, promote_all, recover_one, recover_all, recover_stale, promote_due_retries, requeue,
  dead_letter, ack, decode, decoded, get_job, recover_threshold, recover_script, promote_script,
  unix, single, quiet, run,
}
use lok_lingo.Jobs.Store.Keeps.{
  Keeps, Keeps-single, Keeps-wrapped, Keeps-pipeline, Keeps-pure, Keeps-fail, Keeps-bind,
}
use lok_lingo.Jobs.Store.Kept.{
  IsKept, push-IsKept, retried-IsKept, recovered-IsKept, unlisted-IsKept, retry_score-IsKept,
  buried-IsKept, acked-IsKept,
}

module _ (r : Redis) (x : JobId) where
  abbrev Safe : Data r.Payload → Type 0
  Safe = IsKept x

  pub lpush-IsKept :
      (k : ListKey) (id : JobId) (db : r.Db) → Safe (r.view db) → Safe (r.view (r.lpush k id db))
  lpush-IsKept k id db h = rw (r.view-lpush k id db) (push-IsKept x (r.view db) k id h)

  promote_one-IsKept :
      (id : JobId) (db : r.Db) → Safe (r.view db) → Safe (r.view (promote_one r id db))
  promote_one-IsKept id db h =
      rw (r.view-zrem retry_zset_key id (r.lpush queue_key id db), r.view-lpush queue_key id db)
        (retried-IsKept x (r.view db) id h)

  promote_all-IsKept :
      (ids : List JobId) (n : ℕ) (db : r.Db)
      → Safe (r.view db)
      → Safe (r.view (promote_all r ids n db).1)
  promote_all-IsKept [] n db h = h
  promote_all-IsKept (id ∷ ids) n db h =
      promote_all-IsKept ids (n + 1) (promote_one r id db) (promote_one-IsKept id db h)

  recover_one-IsKept :
      (id : JobId) (db : r.Db) → Safe (r.view db) → Safe (r.view (recover_one r id db).1)
  recover_one-IsKept id db h = elim (Bool-cases (elem id (r.view db).inflight)) [
    | inl e ↦
        rw (r.lrem_first-count inflight_queue_key id db, e)
          (rw (r.view-zrem, r.view-lpush, r.view-lrem_first)
            (recovered-IsKept x (r.view db) id e h))
    | inr e ↦
        rw (r.lrem_first-count inflight_queue_key id db, e)
          (rw (r.view-zrem, r.view-lrem_first) (unlisted-IsKept x (r.view db) id e h))
  ]

  recover_all-IsKept :
      (ids : List JobId) (n : ℕ) (db : r.Db)
      → Safe (r.view db)
      → Safe (r.view (recover_all r ids n db).1)
  recover_all-IsKept [] n db h = h
  recover_all-IsKept (id ∷ ids) n db h =
      let (m, db') = recover_one r id db in
      recover_all-IsKept ids (n + m) db' (recover_one-IsKept id db h)

  -- Whatever becomes of the round trips, each of these methods keeps every job that has a payload in the
  -- queues; an ack keeps every job but the one that it is for.
  pub recover_stale-IsKept : (age : ℕ) → Keeps r Safe (recover_stale r age)
  unfolding recover_stale
  recover_stale-IsKept age = record {
    at = λ w h.
        let t = recover_threshold r age w.clock in
        (Keeps-wrapped {P = Safe} _ (single (recover_script r t)) (
            Keeps-single (recover_script r t)
              (λ db k. recover_all-IsKept (r.zrange_by_score inflight_zset_key t db) 0 db k))).at
          w h;
  }

  pub promote_due_retries-IsKept : (now : ℕ) → Keeps r Safe (promote_due_retries r now)
  unfolding promote_due_retries
  promote_due_retries-IsKept now = Keeps-wrapped _ _ (
      Keeps-single (promote_script r now)
        (λ db k. promote_all-IsKept (r.zrange_by_score retry_zset_key (unix r now) db) 0 db k))

  pub requeue-IsKept : (id : JobId) (delay : ℕ) → Keeps r Safe (requeue r id delay)
  unfolding requeue
  requeue-IsKept id zero = record {
    at = λ w h.
        (Keeps-wrapped {P = Safe} _ (single (quiet (r.lpush queue_key id)))
            (Keeps-single (quiet (r.lpush queue_key id)) (lpush-IsKept queue_key id))).at
          w h;
  }
  requeue-IsKept id (suc delay) = record {
    at = λ w h.
        let f = r.zadd retry_zset_key id (unix r (w.clock + suc delay)) in
        (Keeps-wrapped {P = Safe} _ (single (quiet f)) (
            Keeps-single (quiet f)
              (λ db k. rw (r.view-zadd) (retry_score-IsKept x (r.view db) id _ k)))).at
          w h;
  }

  pub dead_letter-IsKept : (id : JobId) (reason : Text) → Keeps r Safe (dead_letter r id reason)
  unfolding dead_letter
  dead_letter-IsKept id reason = Keeps-wrapped _ _ (Keeps-pipeline _ buried parts)
    where
      pushed : (db : r.Db) → Safe (r.view db) → Safe (r.view (r.lpush dead_letter_queue_key id db))
      pushed = lpush-IsKept dead_letter_queue_key id

      noted :
          (db : r.Db)
          → Safe (r.view db)
          → Safe (r.view (r.hset id reason (r.lpush dead_letter_queue_key id db)))
      noted db h = rw (r.view-hset) (pushed db h)

      buried :
          (db : r.Db)
          → Safe (r.view db)
          → Safe (
              r.view
                (r.zrem retry_zset_key id (r.hset id reason (r.lpush dead_letter_queue_key id db))))
      buried db h = rw (r.view-zrem, r.view-hset, r.view-lpush) (buried-IsKept x (r.view db) id h)

      parts :
          (n : ℕ) (db : r.Db)
          → Safe (r.view db)
          → Safe (
              r.view (
                run
                  (take n (
                    r.lpush dead_letter_queue_key id
                    ∷ r.hset id reason
                    ∷ r.zrem retry_zset_key id
                    ∷ []))
                  db))
      parts zero db h = h
      parts (suc zero) db h = pushed db h
      parts (suc (suc zero)) db h = noted db h
      parts (suc (suc (suc zero))) db h = buried db h
      parts (suc (suc (suc (suc n)))) db h = buried db h

  pub ack-IsKept : (id : JobId) → (id ≟ x) ≡ false → Keeps r Safe (ack r id)
  unfolding ack
  ack-IsKept id e = Keeps-wrapped _ _ (Keeps-pipeline _ both parts)
    where
      removed :
          (db : r.Db) → Safe (r.view db) → Safe (r.view (r.lrem_first inflight_queue_key id db).1)
      removed db h = rw (r.view-lrem_first) (acked-IsKept x (r.view db) id e h)

      both :
          (db : r.Db)
          → Safe (r.view db)
          → Safe (r.view (r.zrem inflight_zset_key id (r.lrem_first inflight_queue_key id db).1))
      both db h = rw (r.view-zrem) (removed db h)

      parts :
          (n : ℕ) (db : r.Db)
          → Safe (r.view db)
          → Safe (
              r.view (
                run
                  (take n (
                    (λ d. (r.lrem_first inflight_queue_key id d).1)
                    ∷ r.zrem inflight_zset_key id
                    ∷ []))
                  db))
      parts zero db h = h
      parts (suc zero) db h = removed db h
      parts (suc (suc zero)) db h = both db h
      parts (suc (suc (suc n))) db h = both db h

  pub decode-IsKept : (p : Option r.Payload) → Keeps r Safe (decode r p)
  decode-IsKept none = Keeps-pure none
  decode-IsKept (some p) = decoded-IsKept (r.unmarshal p)
    where
      decoded-IsKept : (j : Option Job) → Keeps r Safe (decoded r j)
      decoded-IsKept none = Keeps-fail _
      decoded-IsKept (some job) = Keeps-pure (some job)

  pub get_job-IsKept : (id : JobId) → Keeps r Safe (get_job r id)
  unfolding get_job
  get_job-IsKept id =
      Keeps-bind _ _ (Keeps-wrapped _ _ (Keeps-single (λ db. (r.get id db, db)) (λ db h. h)))
        decode-IsKept
