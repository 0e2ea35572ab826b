-- ===== src/Jobs/Store/Recovery.antt =====
-- What the recovery of stale jobs reaches (RecoverStale and promoteDueRetries of backend/jobs/store.go).
use text.Mathlib.TextEquality.{eq_iff}
use lok_lingo.Prelude.{
  ℕ, ◌+◌, ◌≡◌, refl, ap, ◌∙◌, inl, inr, Bool, true, false, ◌||◌, ◌&&◌, List, [], ◌∷◌, none, arith,
  Bool-cases,
}
use lok_lingo.Jobs.Job.{JobId}
use lok_lingo.Jobs.Redis.{
  Redis, Data, elem, remove_first, is_due, inflight_queue_key, inflight_zset_key, retry_zset_key,
  ◌≟◌,
}
use lok_lingo.Jobs.Store.{
  World, recover_one, recover_all, recover_stale, recover_script, recover_threshold, promote_one,
  promote_all, promote_due_retries, promote_script, unix, next_trip, answered, single,
}
use lok_lingo.Jobs.Store.Kept.{elem-remove_first}
use lok_lingo.Jobs.Store.Keeps.{single-db, single-answered, wrapped-world}

module _ (r : Redis) (x : JobId) where
  abbrev queued : r.Db → Bool
  queued db = elem x (r.view db).queue

  abbrev held : r.Db → Bool
  held db = elem x (r.view db).inflight

  recovered :
      (id : JobId) (d : Data r.Payload)
      → elem id d.inflight ≡ true
      → ((id ≟ x || elem x d.queue) ≡ (elem x d.queue || (id ≟ x && elem x d.inflight)))
        × ((id ≟ x) ≡ false → elem x (remove_first id d.inflight) ≡ elem x d.inflight)
  recovered id d e = (ground (arith, eq_iff id x, e), elem-remove_first x id d.inflight)

  unlisted :
      (id : JobId) (d : Data r.Payload)
      → elem id d.inflight ≡ false
      → (elem x d.queue ≡ (elem x d.queue || (id ≟ x && elem x d.inflight)))
        × ((id ≟ x) ≡ false → elem x (remove_first id d.inflight) ≡ elem x d.inflight)
  unlisted id d e = (ground (arith, eq_iff id x, e), elem-remove_first x id d.inflight)

  recover_one-view :
      (id : JobId) (db : r.Db)
      → (queued (recover_one r id db).1 ≡ (queued db || ((id ≟ x) && held db)))
        × ((id ≟ x) ≡ false → held (recover_one r id db).1 ≡ held db)
  recover_one-view id db = elim (Bool-cases (elem id (r.view db).inflight)) [
    | inl e ↦
        rw (r.lrem_first-count inflight_queue_key id db, e)
          (rw (r.view-zrem, r.view-lpush, r.view-lrem_first) (recovered id (r.view db) e))
    | inr e ↦
        rw (r.lrem_first-count inflight_queue_key id db, e)
          (rw (r.view-zrem, r.view-lrem_first) (unlisted id (r.view db) e))
  ]

  recover_all-queue :
      (ids : List JobId) (n : ℕ) (db : r.Db)
      → (queued db || (elem x ids && held db)) ≡ true
      → queued (recover_all r ids n db).1 ≡ true
  recover_all-queue [] n db h = ground (arith, h)
  recover_all-queue (id ∷ ids) n db h =
      let (m, db') = recover_one r id db in
      recover_all-queue ids (n + m) db' (ground (arith, recover_one-view id db, h))

  recover_all-held :
      (ids : List JobId) (n : ℕ) (db : r.Db)
      → elem x ids ≡ false
      → (held (recover_all r ids n db).1 ≡ held db)
        × (queued (recover_all r ids n db).1 ≡ queued db)
  recover_all-held [] n db h = (refl, refl)
  recover_all-held (id ∷ ids) n db h =
      let (m, db') = recover_one r id db in
      let (a, b) = recover_all-held ids (n + m) db' (ground (arith, h)) in
      ground (arith, a, b, recover_one-view id db, h)

  promote_one-view :
      (id : JobId) (db : r.Db) → queued (promote_one r id db) ≡ ((id ≟ x) || queued db)
  promote_one-view id db = rw (r.view-zrem, r.view-lpush) refl

  promote_all-queue :
      (ids : List JobId) (n : ℕ) (db : r.Db)
      → (queued db || elem x ids) ≡ true
      → queued (promote_all r ids n db).1 ≡ true
  promote_all-queue [] n db h = ground (arith, h)
  promote_all-queue (id ∷ ids) n db h =
      promote_all-queue ids (n + 1) (promote_one r id db)
        (ground (arith, promote_one-view id db, h))

-- A recovery whose trip is answered puts a job that is in flight, and that was taken at least so many seconds
-- ago (600 if the age is 0), back into the queue.
pub recover_stale-queue :
    (r : Redis) (x : JobId) (age : ℕ) (w : World r)
    → next_trip w.trips ≡ answered
    → elem x (r.view w.db).inflight ≡ true
    → is_due (recover_threshold r age w.clock) ((r.view w.db).inflight_score x) ≡ true
    → elem x (r.view (recover_stale r age w).1.db).queue ≡ true
unfolding recover_stale
recover_stale-queue r x age w t h d =
    rw
      (
        wrapped-world _ (single (recover_script r (recover_threshold r age w.clock))) w,
        single-answered (recover_script r (recover_threshold r age w.clock)) w t,
      )
      (recover_all-queue r x
        (r.zrange_by_score inflight_zset_key (recover_threshold r age w.clock) w.db) 0 w.db
        (ground (
          arith,
          h,
          d,
          r.elem-zrange_by_score inflight_zset_key (recover_threshold r age w.clock) x w.db,
        )))

-- A promotion whose trip is answered puts every job whose retry is due into the queue.
pub promote_due_retries-queue :
    (r : Redis) (x : JobId) (now : ℕ) (w : World r)
    → next_trip w.trips ≡ answered
    → is_due (unix r now) ((r.view w.db).retry_score x) ≡ true
    → elem x (r.view (promote_due_retries r now w).1.db).queue ≡ true
unfolding promote_due_retries
promote_due_retries-queue r x now w t d =
    rw
      (
        wrapped-world _ (single (promote_script r now)) w,
        single-answered (promote_script r now) w t,
      )
      (promote_all-queue r x (r.zrange_by_score retry_zset_key (unix r now) w.db) 0 w.db
        (ground (arith, d, r.elem-zrange_by_score retry_zset_key (unix r now) x w.db)))

-- A recovery never moves a job that is in flight without a time at which it was taken, however old it is and
-- whatever becomes of the trip: it stays in flight, and comes into the queue no more than before.
pub recover_stale-unmarked :
    (r : Redis) (x : JobId) (age : ℕ) (w : World r)
    → (r.view w.db).inflight_score x ≡ none
    → (elem x (r.view (recover_stale r age w).1.db).inflight ≡ elem x (r.view w.db).inflight)
      × (elem x (r.view (recover_stale r age w).1.db).queue ≡ elem x (r.view w.db).queue)
unfolding recover_stale
recover_stale-unmarked r x age w e =
    rw (wrapped-world _ (single script) w)
      (elim (single-db script w) [ inl p ↦ rw (p) (refl, refl) | inr p ↦ rw (p) moved ])
  where
    script : r.Db → ℕ × r.Db
    script = recover_script r (recover_threshold r age w.clock)

    moved :
        (held r x (script w.db).1 ≡ held r x w.db) × (queued r x (script w.db).1 ≡ queued r x w.db)
    moved =
        recover_all-held r x
          (r.zrange_by_score inflight_zset_key (recover_threshold r age w.clock) w.db) 0 w.db
          (r.elem-zrange_by_score inflight_zset_key (recover_threshold r age w.clock) x w.db
            ∙ ap (is_due (recover_threshold r age w.clock)) e)
