-- ===== src/Jobs/Store/DeadLetters.antt =====
-- The dead letters of the store: ListDead and ReplayDead (backend/jobs/store.go).
use lok_lingo.Prelude.{
  ℕ, zero, suc, List, [], ◌∷◌, ◌++◌, Option, none, some, ◌==◌, if◌then◌else◌, take,
}
use lok_lingo.Prelude.Int.{ℤ, pos, negsuc}
use lok_lingo.Go.Text.{Text, codes}
use lok_lingo.Go.Failure.{ok}
use lok_lingo.Jobs.Job.{JobId, Job, pending}
use lok_lingo.Jobs.Redis.{Redis, queue_key, dead_letter_queue_key, retry_zset_key}
use lok_lingo.Jobs.Store.{Action, pure, single, wrapped, ◌>>=◌, get_job}

-- An entry of ListDead.
pub record DeadJobEntry : Type 0 where
  pub id : JobId
  pub reason : Text
  pub job : Option Job

-- if job.MaxAttempts <= 0 { job.MaxAttempts = 3 }
abbrev pub at_least_three : ℤ → ℤ
at_least_three (pos zero) = pos 3
at_least_three (pos (suc n)) = pos (suc n)
at_least_three (negsuc n) = pos 3

abbrev pub revived : ℕ → Job → Job
revived now job = record job {
  status = pending;
  error_msg = [];
  last_error_msg = [];
  next_retry_at = none;
  dead_lettered_at = none;
  attempt = 0;
  max_attempts = at_least_three job.max_attempts;
  updated_at = now;
}

abbrev pub or_empty : Option Text → Text
or_empty none = []
or_empty (some t) = t

module _ (r : Redis) where
  open r use {
    Db, Payload, lpush, lrem_first, lrem_all, brpoplpush, llen, lrange, zadd, zrem, zrange_by_score,
    zcard, zcount, hset, hdel, hget, set, get, marshal, unmarshal,
  }

  -- The script of ReplayDead.
  abbrev pub replay_script : JobId → Payload → Db → ℕ × Db
  replay_script id payload db =
      let (removed, db1) = lrem_all dead_letter_queue_key id db in
      if removed == 0
      then (0, db1)
      else (removed, lpush queue_key id (set id payload (zrem retry_zset_key id (hdel id db1))))

  abbrev pub replay_job : JobId → Option Job → Action r (Option Job)
  replay_job id none w = (ok none, w)
  replay_job id (some job) w =
      (do
        removed ←
            wrapped (codes "replay dead job")
              (single (replay_script id (marshal (revived w.clock job))))
        if removed == 0 then pure none else pure (some (revived w.clock job)))
        w

  -- The answer `none` is ErrNotFound.
  unfoldable pub replay_dead : JobId → Action r (Option Job)
  replay_dead id = do found ← get_job r id; replay_job id found

  -- The loop of ListDead over the ids.
  unfoldable pub list_entries : List JobId → Action r (List DeadJobEntry)
  list_entries [] = pure []
  list_entries (id ∷ ids) = do
    reason ←
        wrapped (codes "get dead-letter reason for " ++ codes id) (single (λ db. (hget id db, db)))
    job ← wrapped (codes "get dead-letter job " ++ codes id) (get_job r id)
    rest ← list_entries ids
    pure (record { id = id; reason = or_empty reason; job = job } ∷ rest)

  unfoldable pub list_dead : ℕ → Action r (List DeadJobEntry)
  list_dead limit = do
    ids ← wrapped (codes "list dead jobs") (
        single
          (λ db. (take (if limit == 0 then 25 else limit) (lrange dead_letter_queue_key db), db)))
    list_entries ids
