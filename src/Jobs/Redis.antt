-- ===== src/Jobs/Redis.antt =====
-- The Redis server that the job store talks to, as the store sees it: its lists, sorted sets, hash and
-- string keys as data, what each command does to them, and the interface of a server and of the codecs
-- (encoding/json, SHA-256) that the store is built on.
use text.Mathlib.Text.{◌==◌ as str_eq}
use lok_lingo.Prelude.{
  ℕ, suc, ◌≡◌, Bool, false, ◌||◌, List, [], ◌∷◌, Option, none, some, if◌then◌else◌, length,
}
use lok_lingo.Prelude.Int.{ℤ, leb_ℤ}
use lok_lingo.Go.Text.{Text}
use lok_lingo.Jobs.Job.{JobId, Job}

infix 50 ◌≟◌
abbrev pub ◌≟◌ : JobId → JobId → Bool
a ≟ b = str_eq a b

-- loklingo:jobs:queue, loklingo:jobs:inflight, loklingo:jobs:dead:queue
pub data ListKey : Type 0 where
  queue_key inflight_queue_key dead_letter_queue_key : ListKey

-- loklingo:jobs:inflight:zset, loklingo:jobs:retry:zset
pub data ZsetKey : Type 0 where
  inflight_zset_key retry_zset_key : ZsetKey

abbrev pub elem : JobId → List JobId → Bool
elem x [] = false
elem x (y ∷ ys) = (y ≟ x) || elem x ys

-- LREM key 1 id
unfoldable pub remove_first : JobId → List JobId → List JobId
remove_first x [] = []
remove_first x (y ∷ ys) = let rest = remove_first x ys in if y ≟ x then ys else y ∷ rest

-- LREM key 0 id
unfoldable pub remove_all : JobId → List JobId → List JobId
remove_all x [] = []
remove_all x (y ∷ ys) = let rest = remove_all x ys in if y ≟ x then rest else y ∷ rest

abbrev pub count : JobId → List JobId → ℕ
count x [] = 0
count x (y ∷ ys) = let rest = count x ys in if y ≟ x then suc rest else rest

-- The last element and what stands before it.
unfoldable pub pop_last : JobId → List JobId → JobId × List JobId
pop_last x [] = (x, [])
pop_last x (y ∷ ys) = let (l, rest) = pop_last y ys in (l, x ∷ rest)

pub record Data (Payload : Type 0) : Type 0 where
  pub queue : List JobId
  pub inflight : List JobId
  pub dead : List JobId
  pub inflight_score : JobId → Option ℤ
  pub retry_score : JobId → Option ℤ
  pub dead_meta : JobId → Option Text
  pub jobs : JobId → Option Payload

abbrev pub update_at {ℓ} : {V : Type ℓ} → JobId → Option V → (JobId → Option V) → JobId → Option V
update_at x v f y = if x ≟ y then v else f y

-- A member with this score stands between -inf and the limit.
abbrev pub is_due : ℤ → Option ℤ → Bool
is_due limit none = false
is_due limit (some s) = leb_ℤ s limit

module _ {P : Type 0} where
  abbrev pub list : ListKey → Data P → List JobId
  list queue_key d = d.queue
  list inflight_queue_key d = d.inflight
  list dead_letter_queue_key d = d.dead

  abbrev pub set_list : ListKey → List JobId → Data P → Data P
  set_list queue_key l d = record d { queue = l }
  set_list inflight_queue_key l d = record d { inflight = l }
  set_list dead_letter_queue_key l d = record d { dead = l }

  abbrev pub score : ZsetKey → Data P → JobId → Option ℤ
  score inflight_zset_key d = d.inflight_score
  score retry_zset_key d = d.retry_score

  abbrev pub set_score : ZsetKey → JobId → Option ℤ → Data P → Data P
  set_score inflight_zset_key id v d = record d { inflight_score = update_at id v d.inflight_score }
  set_score retry_zset_key id v d = record d { retry_score = update_at id v d.retry_score }

  abbrev pub pop_push : ListKey → ListKey → List JobId → Data P → Option JobId × Data P
  pop_push source target [] d = (none, d)
  pop_push source target (x ∷ xs) d =
      let (last, rest) = pop_last x xs in
      let d' = set_list source rest d in (some last, set_list target (last ∷ list target d') d')

-- A server: its state, what the state shows, and the commands, each with the effect that Redis documents.
pub record Redis : Type 1 where
  pub Db : Type 0
  pub Payload : Type 0
  pub view : Db → Data Payload
  pub lpush : ListKey → JobId → Db → Db
  pub view-lpush :
      (k : ListKey) (id : JobId) (db : Db)
      → view (lpush k id db) ≡ set_list k (id ∷ list k (view db)) (view db)
  -- LREM with the count 1, and with the count 0; the number is of the elements removed
  pub lrem_first : ListKey → JobId → Db → ℕ × Db
  pub view-lrem_first :
      (k : ListKey) (id : JobId) (db : Db)
      → view (lrem_first k id db).1 ≡ set_list k (remove_first id (list k (view db))) (view db)
  pub lrem_first-count :
      (k : ListKey) (id : JobId) (db : Db)
      → (lrem_first k id db).0 ≡ (if elem id (list k (view db)) then 1 else 0)
  pub lrem_all : ListKey → JobId → Db → ℕ × Db
  pub view-lrem_all :
      (k : ListKey) (id : JobId) (db : Db)
      → view (lrem_all k id db).1 ≡ set_list k (remove_all id (list k (view db))) (view db)
  pub lrem_all-count :
      (k : ListKey) (id : JobId) (db : Db) → (lrem_all k id db).0 ≡ count id (list k (view db))
  -- BRPOPLPUSH, when nobody pushes while it waits
  pub brpoplpush : ListKey → ListKey → Db → Option JobId × Db
  pub brpoplpush_reply :
      (k j : ListKey) (db : Db)
      → (brpoplpush k j db).0 ≡ (pop_push k j (list k (view db)) (view db)).0
  pub view-brpoplpush :
      (k j : ListKey) (db : Db)
      → view (brpoplpush k j db).1 ≡ (pop_push k j (list k (view db)) (view db)).1
  pub llen : ListKey → Db → ℕ
  pub llen_lem : (k : ListKey) (db : Db) → llen k db ≡ length (list k (view db))
  pub lrange : ListKey → Db → List JobId
  pub lrange_lem : (k : ListKey) (db : Db) → lrange k db ≡ list k (view db)
  pub zadd : ZsetKey → JobId → ℤ → Db → Db
  pub view-zadd :
      (k : ZsetKey) (id : JobId) (s : ℤ) (db : Db)
      → view (zadd k id s db) ≡ set_score k id (some s) (view db)
  pub zrem : ZsetKey → JobId → Db → Db
  pub view-zrem :
      (k : ZsetKey) (id : JobId) (db : Db) → view (zrem k id db) ≡ set_score k id none (view db)
  -- ZRANGEBYSCORE from -inf; which members, and no promise of their order
  pub zrange_by_score : ZsetKey → ℤ → Db → List JobId
  pub elem-zrange_by_score :
      (k : ZsetKey) (limit : ℤ) (id : JobId) (db : Db)
      → elem id (zrange_by_score k limit db) ≡ is_due limit (score k (view db) id)
  pub zcard : ZsetKey → Db → ℕ
  pub zcount : ZsetKey → ℤ → Db → ℕ
  pub hset : JobId → Text → Db → Db
  pub view-hset :
      (id : JobId) (v : Text) (db : Db)
      → view (hset id v db)
        ≡ record (view db) { dead_meta = update_at id (some v) (view db).dead_meta }
  pub hdel : JobId → Db → Db
  pub view-hdel :
      (id : JobId) (db : Db)
      → view (hdel id db) ≡ record (view db) { dead_meta = update_at id none (view db).dead_meta }
  pub hget : JobId → Db → Option Text
  pub hget_lem : (id : JobId) (db : Db) → hget id db ≡ (view db).dead_meta id
  -- SET and GET of a job's key
  pub set : JobId → Payload → Db → Db
  pub view-set :
      (id : JobId) (p : Payload) (db : Db)
      → view (set id p db) ≡ record (view db) { jobs = update_at id (some p) (view db).jobs }
  pub get : JobId → Db → Option Payload
  pub get_lem : (id : JobId) (db : Db) → get id db ≡ (view db).jobs id
  -- json.Marshal and json.Unmarshal of a job
  pub marshal : Job → Payload
  pub unmarshal : Payload → Option Job
  pub unmarshal-marshal : (job : Job) → unmarshal (marshal job) ≡ some job
