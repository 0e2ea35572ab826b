-- ===== src/Examples/Memory.antt =====
-- A Redis server in memory, which shows that the interface of Jobs.Redis can be met.
use text.Mathlib.TextEquality.{eq_iff}
use lok_lingo.Prelude.{
  ◌≡◌, refl, ap, ◌∙◌, ◌^◌, Bool, false, not, ◌&&◌, ◌||◌, List, [], ◌∷◌, Option, none, some, arith,
  if◌then◌else◌, length,
}
use lok_lingo.Prelude.Int.{ℤ, pos}
use lok_lingo.Go.Text.{Text}
use lok_lingo.Jobs.Job.{JobId, Job}
use lok_lingo.Jobs.Redis.{
  Redis, Data, ListKey, ZsetKey, queue_key, inflight_queue_key, dead_letter_queue_key, pop_last,
  inflight_zset_key, retry_zset_key, elem, is_due, score, list, set_list, set_score, pop_push,
  count, remove_first, remove_all, ◌≟◌,
}

-- The entries that were written under a key, the newest first; `none` is a removal.
abbrev pub Log : Type 0 → Type 0
Log V = List (JobId × Option V)

abbrev pub look_up : {V : Type 0} → Log V → JobId → Option V
look_up [] y = none
look_up ((x, s) ∷ l) y = if x ≟ y then s else look_up l y

abbrev pub due_of : ℤ → (JobId → Option ℤ) → Log ℤ → List JobId
due_of limit f [] = []
due_of limit f ((x, s) ∷ l) =
    let rest = due_of limit f l in
    if is_due limit (f x) && not (elem x rest) then x ∷ rest else rest

abbrev pub is_named : JobId → Log ℤ → Bool
is_named x [] = false
is_named x ((y, s) ∷ l) = (y ≟ x) || is_named x l

pub elem-due_of :
    (limit : ℤ) (x : JobId) (f : JobId → Option ℤ) (l : Log ℤ)
    → elem x (due_of limit f l) ≡ (is_named x l && is_due limit (f x))
elem-due_of limit x f [] = refl
elem-due_of limit x f ((y, s) ∷ l) = ground (arith, eq_iff y x, elem-due_of limit x f l)

pub is_named-look_up :
    (limit : ℤ) (x : JobId) (l : Log ℤ)
    → (is_named x l && is_due limit (look_up l x)) ≡ is_due limit (look_up l x)
is_named-look_up limit x [] = refl
is_named-look_up limit x ((y, s) ∷ l) = ground (arith, is_named-look_up limit x l)

-- What the server holds; of a sorted set the log of its scores.
pub record Memory : Type 0 where
  pub queue : List JobId
  pub inflight : List JobId
  pub dead : List JobId
  pub inflight_log : Log ℤ
  pub retry_log : Log ℤ
  pub meta_log : Log Text
  pub job_log : Log Job
  pub text_log : List (Text × Option Text)

abbrev pub shown : Memory → Data Job
shown m = record {
  queue = m.queue;
  inflight = m.inflight;
  dead = m.dead;
  inflight_score = look_up m.inflight_log;
  retry_score = look_up m.retry_log;
  dead_meta = look_up m.meta_log;
  jobs = look_up m.job_log;
}

abbrev pub set_ids : ListKey → List JobId → Memory → Memory
set_ids queue_key l m = record m { queue = l }
set_ids inflight_queue_key l m = record m { inflight = l }
set_ids dead_letter_queue_key l m = record m { dead = l }

pub shown-set_ids :
    (k : ListKey) (l : List JobId) (m : Memory) → shown (set_ids k l m) ≡ set_list k l (shown m)
shown-set_ids queue_key l m = refl
shown-set_ids inflight_queue_key l m = refl
shown-set_ids dead_letter_queue_key l m = refl

abbrev pub log_of : ZsetKey → Memory → Log ℤ
log_of inflight_zset_key m = m.inflight_log
log_of retry_zset_key m = m.retry_log

abbrev pub note : ZsetKey → JobId → Option ℤ → Memory → Memory
note inflight_zset_key id v m = record m { inflight_log = (id, v) ∷ m.inflight_log }
note retry_zset_key id v m = record m { retry_log = (id, v) ∷ m.retry_log }

pub shown-note :
    (k : ZsetKey) (id : JobId) (v : Option ℤ) (m : Memory)
    → shown (note k id v m) ≡ set_score k id v (shown m)
shown-note inflight_zset_key id v m = refl
shown-note retry_zset_key id v m = refl

abbrev pub due_members : ZsetKey → ℤ → Memory → List JobId
due_members k limit m = due_of limit (look_up (log_of k m)) (log_of k m)

pub elem-due_members :
    (k : ZsetKey) (limit : ℤ) (id : JobId) (m : Memory)
    → elem id (due_members k limit m) ≡ is_due limit (score k (shown m) id)
elem-due_members inflight_zset_key limit id m =
    elem-due_of limit id _ m.inflight_log ∙ is_named-look_up limit id m.inflight_log
elem-due_members retry_zset_key limit id m =
    elem-due_of limit id _ m.retry_log ∙ is_named-look_up limit id m.retry_log

abbrev pub moved : ListKey → ListKey → List JobId → Memory → Option JobId × Memory
moved k j [] m = (none, m)
moved k j (x ∷ xs) m =
    let (last, rest) = pop_last x xs in
    let m' = set_ids k rest m in (some last, set_ids j (last ∷ list j (shown m')) m')

pub moved_reply :
    (k j : ListKey) (l : List JobId) (m : Memory) → (moved k j l m).0 ≡ (pop_push k j l (shown m)).0
moved_reply k j [] m = refl
moved_reply k j (x ∷ xs) m = refl

pub shown-moved :
    (k j : ListKey) (l : List JobId) (m : Memory)
    → shown (moved k j l m).1 ≡ (pop_push k j l (shown m)).1
shown-moved k j [] m = refl
shown-moved k j (x ∷ xs) m =
    shown-set_ids j _ _
    ∙ ap (λ d. set_list j ((pop_last x xs).0 ∷ list j d) d) (shown-set_ids k _ m)

abbrev pub largest : ℤ
largest = pos (10 ^ 18)

abbrev pub in_memory : Redis
in_memory = record {
  Db = Memory;
  Payload = Job;
  view = shown;
  lpush = λ k id m. set_ids k (id ∷ list k (shown m)) m;
  view-lpush = λ k id m. shown-set_ids k _ m;
  lrem_first = λ k id m. (
    if elem id (list k (shown m)) then 1 else 0,
    set_ids k (remove_first id (list k (shown m))) m,
  );
  view-lrem_first = λ k id m. shown-set_ids k _ m;
  lrem_first-count = λ k id m. refl;
  lrem_all =
      λ k id m. (count id (list k (shown m)), set_ids k (remove_all id (list k (shown m))) m);
  view-lrem_all = λ k id m. shown-set_ids k _ m;
  lrem_all-count = λ k id m. refl;
  brpoplpush = λ k j m. moved k j (list k (shown m)) m;
  brpoplpush_reply = λ k j m. moved_reply k j (list k (shown m)) m;
  view-brpoplpush = λ k j m. shown-moved k j (list k (shown m)) m;
  llen = λ k m. length (list k (shown m));
  llen_lem = λ k m. refl;
  lrange = λ k m. list k (shown m);
  lrange_lem = λ k m. refl;
  zadd = λ k id s m. note k id (some s) m;
  view-zadd = λ k id s m. shown-note k id (some s) m;
  zrem = λ k id m. note k id none m;
  view-zrem = λ k id m. shown-note k id none m;
  zrange_by_score = due_members;
  elem-zrange_by_score = elem-due_members;
  zcard = λ k m. length (due_members k largest m);
  zcount = λ k limit m. length (due_members k limit m);
  hset = λ id v m. record m { meta_log = (id, some v) ∷ m.meta_log };
  view-hset = λ id v m. refl;
  hdel = λ id m. record m { meta_log = (id, none) ∷ m.meta_log };
  view-hdel = λ id m. refl;
  hget = λ id m. look_up m.meta_log id;
  hget_lem = λ id m. refl;
  set = λ id p m. record m { job_log = (id, some p) ∷ m.job_log };
  view-set = λ id p m. refl;
  get = λ id m. look_up m.job_log id;
  get_lem = λ id m. refl;
  marshal = λ job. job;
  unmarshal = some;
  unmarshal-marshal = λ job. refl;
}
