-- ===== src/Jobs/Store.antt =====
-- The job store over Redis (backend/jobs/store.go). A method is an action (Store/Trips).
pub mod Trips
pub mod Keeps
pub mod Kept
pub mod Safety
pub mod Intake
pub mod DeadLetters
pub mod Recovery
pub mod Calls
pub mod Texts
use lok_lingo.Prelude.{
  ℕ, zero, suc, ◌+◌, ◌*◌, ◌/◌, Bool, true, false, List, [], ◌∷◌, ◌++◌, Option, none, some, ltb,
  ◌==◌, if◌then◌else◌, take,
}
use lok_lingo.Prelude.Int.{ℤ, pos, negsuc, sub_ℕ}
use lok_lingo.Go.Text.{Text, codes}
use lok_lingo.Go.Failure.{plain_error, GoError, Result, ok, err}
use lok_lingo.Jobs.Job.{JobId, Job, pending, QueueStats, second}
use lok_lingo.Jobs.Redis.{
  Redis, queue_key, inflight_queue_key, dead_letter_queue_key, inflight_zset_key, retry_zset_key,
}
pub use lok_lingo.Jobs.Store.Trips.{
  Trip, answered, cut, next_trip, later_trips, World, wrap, quiet, run, Action, continue, ◌>>◌,
}
unfoldable pub use lok_lingo.Jobs.Store.Trips.{pure, fail, single, wrapped, ◌>>=◌, pipeline}

-- in seconds
abbrev pub default_recover_ttl : ℕ
default_recover_ttl = 600

module _ (r : Redis) where
  open r use {
    Db, Payload, lpush, lrem_first, lrem_all, brpoplpush, llen, lrange, zadd, zrem, zrange_by_score,
    zcard, zcount, hset, hdel, hget, set, get, marshal, unmarshal,
  }

  abbrev pub unix : ℕ → ℤ
  unix now = pos (now / second)

  unfoldable pub enqueue : Job → Action r (Unit {0})
  enqueue job = pipeline (set job.id (marshal job) ∷ lpush queue_key job.id ∷ [])

  abbrev pub decoded : Option Job → Action r (Option Job)
  decoded none = fail (plain_error (codes "unmarshal job"))
  decoded (some job) = pure (some job)

  -- The answer `none` is ErrNotFound.
  abbrev pub decode : Option Payload → Action r (Option Job)
  decode none = pure none
  decode (some payload) = decoded (unmarshal payload)

  unfoldable pub get_job : JobId → Action r (Option Job)
  get_job id = do found ← wrapped (codes "redis get") (single (λ db. (get id db, db))); decode found

  -- The job is stamped before it is written; the stamp is returned with the answer.
  unfoldable pub update : Job → World r → ℕ × Result (Unit {0}) × World r
  update job w =
      let (q, w') = single (quiet (set job.id (marshal (record job { updated_at = w.clock })))) w in
      (w.clock, q, w')

  -- The body of the script's loop in promoteDueRetries.
  abbrev pub promote_one : JobId → Db → Db
  promote_one id db = zrem retry_zset_key id (lpush queue_key id db)

  abbrev pub promote_all : List JobId → ℕ → Db → ℕ × Db
  promote_all [] moved db = (moved, db)
  promote_all (id ∷ ids) moved db = promote_all ids (moved + 1) (promote_one id db)

  abbrev pub promote_script : ℕ → Db → ℕ × Db
  promote_script now db = promote_all (zrange_by_score retry_zset_key (unix now) db) 0 db

  unfoldable pub promote_due_retries : ℕ → Action r ℕ
  promote_due_retries now = wrapped (codes "promote retries eval") (single (promote_script now))

  unfoldable pub ack : JobId → Action r (Unit {0})
  ack id =
      wrapped (codes "ack inflight job") (
        pipeline ((λ db. (lrem_first inflight_queue_key id db).1) ∷ zrem inflight_zset_key id ∷ []))

  -- The body of the script's loop in RecoverStale; the number is what it adds to `moved`.
  abbrev pub recover_one : JobId → Db → ℕ × Db
  recover_one id db =
      let (removed, db1) = lrem_first inflight_queue_key id db in
      if ltb 0 removed
      then (1, zrem inflight_zset_key id (lpush queue_key id db1))
      else (0, zrem inflight_zset_key id db1)

  abbrev pub recover_all : List JobId → ℕ → Db → ℕ × Db
  recover_all [] moved db = (moved, db)
  recover_all (id ∷ ids) moved db =
      let (n, db') = recover_one id db in recover_all ids (moved + n) db'

  abbrev pub recover_script : ℤ → Db → ℕ × Db
  recover_script threshold db = recover_all (zrange_by_score inflight_zset_key threshold db) 0 db

  -- The age is in whole seconds, as every caller gives it.
  abbrev pub recover_threshold : ℕ → ℕ → ℤ
  recover_threshold older_than now =
      sub_ℕ (now / second) (if older_than == 0 then default_recover_ttl else older_than)

  unfoldable pub recover_stale : ℕ → Action r ℕ
  recover_stale older_than w =
      wrapped (codes "recover stale eval")
        (single (recover_script (recover_threshold older_than w.clock))) w

  -- The payload of a job that was taken: if it is gone, the entry is acked, and the outcome of that is
  -- not looked at.
  abbrev pub unless_gone : JobId → Option Job → Action r (Option Job)
  unless_gone id (some job) w = (ok (some job), w)
  unless_gone id none w = let (q, w') = ack id w in (ok none, w')

  abbrev pub mark_inflight : Option JobId → Action r (Option Job)
  mark_inflight none w = (ok none, w)
  mark_inflight (some id) w =
      (do
        wrapped (codes "mark inflight") (single (quiet (zadd inflight_zset_key id (unix w.clock))))
        found ← get_job id
        unless_gone id found)
        w

  unfoldable pub dequeue : Action r (Option Job)
  dequeue w =
      (do
        wrapped (codes "recover stale inflight") (recover_stale default_recover_ttl)
        wrapped (codes "promote due retries") (promote_due_retries w.clock)
        taken ← wrapped (codes "brpoplpush") (single (brpoplpush queue_key inflight_queue_key))
        mark_inflight taken)
        w

  -- A delay of 0 or less queues the job at once.
  unfoldable pub requeue : JobId → ℕ → Action r (Unit {0})
  requeue id zero w = wrapped (codes "requeue immediate") (single (quiet (lpush queue_key id))) w
  requeue id (suc delay) w =
      wrapped (codes "requeue delayed")
        (single (quiet (zadd retry_zset_key id (unix (w.clock + suc delay))))) w

  unfoldable pub dead_letter : JobId → Text → Action r (Unit {0})
  dead_letter id reason =
      wrapped (codes "dead letter job")
        (pipeline (lpush dead_letter_queue_key id ∷ hset id reason ∷ zrem retry_zset_key id ∷ []))

  unfoldable pub queue_stats : Action r QueueStats
  queue_stats w =
      (do
        queue_depth ← wrapped (codes "queue depth") (single (λ db. (llen queue_key db, db)))
        inflight_depth ←
            wrapped (codes "inflight depth") (single (λ db. (llen inflight_queue_key db, db)))
        retry_backlog ←
            wrapped (codes "retry backlog") (single (λ db. (zcard retry_zset_key db, db)))
        dead_letter_count ←
            wrapped (codes "dead-letter volume")
              (single (λ db. (llen dead_letter_queue_key db, db)))
        stuck_jobs ← wrapped (codes "stuck jobs") (
            single (λ db.
              (zcount inflight_zset_key (sub_ℕ (w.clock / second) default_recover_ttl) db, db)))
        pure (record {
          queue_depth = queue_depth;
          inflight_depth = inflight_depth;
          stuck_jobs = stuck_jobs;
          retry_backlog = retry_backlog;
          dead_letter_count = dead_letter_count;
        }))
        w
