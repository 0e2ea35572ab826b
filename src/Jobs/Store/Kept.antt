-- ===== src/Jobs/Store/Kept.antt =====
-- A job that has a payload and is tracked, and what the commands of the store's methods do to it
-- (backend/jobs/store.go).
use text.Mathlib.TextEquality.{eq_iff}
use lok_lingo.Prelude.{
  ◌≡◌, refl, ap, Bool, true, false, ◌||◌, ◌&&◌, List, [], ◌∷◌, Option, none, some, arith, ◌==◌,
}
use lok_lingo.Prelude.Int.{ℤ}
use lok_lingo.Jobs.Job.{JobId}
use lok_lingo.Jobs.Redis.{
  Data, elem, remove_first, remove_all, count, pop_last, pop_push, update_at, set_list, set_score,
  list, ListKey, queue_key, inflight_queue_key, inflight_zset_key, retry_zset_key, ◌≟◌,
}

abbrev pub is_there {ℓ} : {V : Type ℓ} → Option V → Bool
is_there none = false
is_there (some v) = true

-- The id waits in the queue, is held by a worker, waits for a retry, or is a dead letter.
abbrev pub is_tracked : {P : Type 0} → JobId → Data P → Bool
is_tracked x d = elem x d.queue || elem x d.inflight || elem x d.dead || is_there (d.retry_score x)

pub elem-remove_first :
    (x y : JobId) (l : List JobId) → (y ≟ x) ≡ false → elem x (remove_first y l) ≡ elem x l
unfolding remove_first
elem-remove_first x y [] h = refl
elem-remove_first x y (z ∷ l) h =
    ground (arith, elem-remove_first x y l h, eq_iff z y, eq_iff z x, eq_iff y x)

elem-pop_last :
    (x y : JobId) (l : List JobId)
    → elem x (y ∷ l) ≡ (elem x (pop_last y l).1 || (pop_last y l).0 ≟ x)
unfolding pop_last
elem-pop_last x y [] = ground arith
elem-pop_last x y (z ∷ l) = ground (arith, elem-pop_last x z l)

elem-remove_all :
    (x y : JobId) (l : List JobId) → (y ≟ x) ≡ false → elem x (remove_all y l) ≡ elem x l
unfolding remove_all
elem-remove_all x y [] h = refl
elem-remove_all x y (z ∷ l) h =
    ground (arith, elem-remove_all x y l h, eq_iff z y, eq_iff z x, eq_iff y x)

pub remove_all-none : (x : JobId) (l : List JobId) → (count x l == 0) ≡ true → remove_all x l ≡ l
unfolding remove_all
remove_all-none x [] h = refl
remove_all-none x (z ∷ l) h = ground (arith, remove_all-none x l)

-- The id has a payload, and is tracked.
abbrev pub IsKept : {P : Type 0} → JobId → Data P → Type 0
IsKept x d = (is_there (d.jobs x) && is_tracked x d) ≡ true

module _ {P : Type 0} (x : JobId) (d : Data P) where
  pub push-IsKept :
      (k : ListKey) (id : JobId) → IsKept x d → IsKept x (set_list k (id ∷ list k d) d)
  push-IsKept queue_key id h = ground arith
  push-IsKept _ id h = ground arith

  inflight_score-IsKept :
      (id : JobId) (s : Option ℤ) → IsKept x d → IsKept x (set_score inflight_zset_key id s d)
  inflight_score-IsKept id s h = h

  pub retried-IsKept :
      (id : JobId)
      → IsKept x d
      → IsKept x (set_score retry_zset_key id none (set_list queue_key (id ∷ d.queue) d))
  retried-IsKept id h = ground (arith, eq_iff id x)

  pub recovered-IsKept :
      (id : JobId)
      → elem id d.inflight ≡ true
      → IsKept x d
      → IsKept x (record d { inflight = remove_first id d.inflight; queue = id ∷ d.queue })
  recovered-IsKept id e h = ground (arith, eq_iff id x, elem-remove_first x id d.inflight)

  pub unlisted-IsKept :
      (id : JobId)
      → elem id d.inflight ≡ false
      → IsKept x d
      → IsKept x (record d { inflight = remove_first id d.inflight })
  unlisted-IsKept id e h = ground (arith, eq_iff id x, elem-remove_first x id d.inflight)

  pub retry_score-IsKept :
      (id : JobId) (s : ℤ) → IsKept x d → IsKept x (set_score retry_zset_key id (some s) d)
  retry_score-IsKept id s h = ground arith

  pub buried-IsKept :
      (id : JobId)
      → IsKept x d
      → IsKept x (set_score retry_zset_key id none (record d { dead = id ∷ d.dead }))
  buried-IsKept id h = ground (arith, eq_iff id x)

  pub acked-IsKept :
      (id : JobId)
      → (id ≟ x) ≡ false
      → IsKept x d
      → IsKept x (record d { inflight = remove_first id d.inflight })
  acked-IsKept id e h = ground (arith, elem-remove_first x id d.inflight)

  pub rewritten-IsKept :
      (id : JobId) (p : P)
      → IsKept x d
      → IsKept x (record d {
        queue = id ∷ d.queue;
        dead = remove_all id d.dead;
        retry_score = update_at id none d.retry_score;
        jobs = update_at id (some p) d.jobs;
      })
  rewritten-IsKept id p h = ground (arith, h, elem-remove_all x id d.dead)

  pub taken-IsKept :
      (l : List JobId)
      → l ≡ d.queue
      → IsKept x d
      → IsKept x (pop_push queue_key inflight_queue_key l d).1
  taken-IsKept [] e h = h
  taken-IsKept (y ∷ l) e h = ground (arith, elem-pop_last x y l, ap (elem x) e)
