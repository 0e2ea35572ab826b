-- ===== src/Jobs/Store/Keeps.antt =====
-- Predicates of the server's data that an action keeps, whatever becomes of its round trips: one rule for
-- each way to build an action.
use lok_lingo.Prelude.{ℕ, zero, suc, ◌≡◌, ◌⊎◌, refl, List, [], ◌∷◌, inl, inr, take}
use lok_lingo.Go.Text.{Text}
use lok_lingo.Go.Failure.{GoError, ok, Result-cases}
use lok_lingo.Jobs.Redis.{Redis, Data}
use lok_lingo.Jobs.Store.{
  World, Trip, answered, cut, next_trip, Action, pure, fail, single, wrapped, ◌>>=◌, run, pipeline,
}

-- `m` keeps `P`, whether it answers or fails.
pub record Keeps (r : Redis) (P : Data r.Payload → Type 0) {A : Type 0} (m : Action r A)
    : Type 0 where
  pub at : (w : World r) → P (r.view w.db) → P (r.view (m w).1.db)

module _ {r : Redis} {A : Type 0} where
  pub wrapped-world :
      (prefix : Text) (m : Action r A) (w : World r) → (wrapped prefix m w).1 ≡ (m w).1
  unfolding wrapped
  wrapped-world prefix m w = elim (Result-cases (m w).0) [
    | inl (a, e) ↦ rw (e, wrapped) refl
    | inr (x, e) ↦ rw (e, wrapped) refl
  ]

  -- A trip that is answered has done its work, and one that is cut may have done it.
  pub single-answered :
      (f : r.Db → A × r.Db) (w : World r)
      → next_trip w.trips ≡ answered
      → (single f w).1.db ≡ (f w.db).1
  unfolding single
  single-answered f w e = rw (e, single) refl

  pub single-db :
      (f : r.Db → A × r.Db) (w : World r)
      → ((single f w).1.db ≡ w.db) ⊎ ((single f w).1.db ≡ (f w.db).1)
  unfolding single
  single-db f w = step w (next_trip w.trips) refl
    where
      step :
          (w : World r) (t : Trip)
          → next_trip w.trips ≡ t
          → ((single f w).1.db ≡ w.db) ⊎ ((single f w).1.db ≡ (f w.db).1)
      step w answered e = inr (single-answered f w e)
      step w (cut zero x) e = inl (rw (e, single) refl)
      step w (cut (suc n) x) e = inr (rw (e, single) refl)

module _ {r : Redis} {P : Data r.Payload → Type 0} {A : Type 0} where
  pub Keeps-pure : (a : A) → Keeps r P (pure a)
  unfolding pure
  Keeps-pure a = record { at = λ w h. h }

  pub Keeps-fail : (e : GoError) → Keeps r P (fail {A = A} e)
  unfolding fail
  Keeps-fail e = record { at = λ w h. h }

  pub Keeps-single :
      (f : r.Db → A × r.Db)
      → ((db : r.Db) → P (r.view db) → P (r.view (f db).1))
      → Keeps r P (single f)
  unfolding single
  Keeps-single f keep = record { at = λ w h. step w h (next_trip w.trips) refl }
    where
      step :
          (w : World r)
          → P (r.view w.db)
          → (t : Trip) → next_trip w.trips ≡ t
          → P (r.view (single f w).1.db)
      step w h answered e = rw (e, single) (keep w.db h)
      step w h (cut zero x) e = rw (e, single) h
      step w h (cut (suc n) x) e = rw (e, single) (keep w.db h)

  pub Keeps-wrapped : (prefix : Text) (m : Action r A) → Keeps r P m → Keeps r P (wrapped prefix m)
  Keeps-wrapped prefix m k = record { at = λ w h. rw (wrapped-world prefix m w) (k.at w h) }

  -- The rest of the block may use that the first action answered `a` in the world `w`.
  pub Keeps-bind :
      {B : Type 0} (m : Action r B) (f : B → Action r A)
      → Keeps r P m
      → ((b : B) → Keeps r P (f b))
      → Keeps r P (◌>>=◌ m f)
  unfolding ◌>>=◌
  Keeps-bind m f k j = record {
    at = λ w h. elim (Result-cases (m w).0) [
      | inl (b, e) ↦ rw (e, ◌>>=◌) ((j b).at (m w).1 (k.at w h))
      | inr (x, e) ↦ rw (e, ◌>>=◌) (k.at w h)
    ];
  }

  -- The same where the rest of the block is known for the answers alone that the first action gives.
  pub Keeps-bind_answered :
      {B : Type 0} (m : Action r B) (f : B → Action r A)
      → Keeps r P m
      → ((w : World r) (b : B) → (m w).0 ≡ ok b → Keeps r P (f b))
      → Keeps r P (◌>>=◌ m f)
  unfolding ◌>>=◌
  Keeps-bind_answered m f k j = record {
    at = λ w h. elim (Result-cases (m w).0) [
      | inl (b, e) ↦ rw (e, ◌>>=◌) ((j w b e).at (m w).1 (k.at w h))
      | inr (x, e) ↦ rw (e, ◌>>=◌) (k.at w h)
    ];
  }

-- A query that is answered answers what it reads.
pub wrapped-query :
    (r : Redis) {A : Type 0} (prefix : Text) (g : r.Db → A) (db : r.Db) (trips : List Trip)
    (clock : ℕ) (a : A)
    → (wrapped prefix
        (single {r = r} (λ db. (g db, db)))
        (record { db = db; trips = trips; clock = clock })).0
      ≡ ok a
    → g db ≡ a
unfolding wrapped single
wrapped-query r prefix g db [] clock a e = cc
wrapped-query r prefix g db (answered ∷ ts) clock a e = cc
wrapped-query r prefix g db (cut zero x ∷ ts) clock a e = absurd (cc)
wrapped-query r prefix g db (cut (suc n) x ∷ ts) clock a e = absurd (cc)

-- A command keeps the predicate.
abbrev pub Holds : (r : Redis) → (Data r.Payload → Type 0) → (r.Db → r.Db) → Type 0
Holds r P f = (db : r.Db) → P (r.view db) → P (r.view (f db))

module _ {r : Redis} {P : Data r.Payload → Type 0} where
  -- A pipeline keeps what each of its prefixes keeps.
  pub Keeps-pipeline :
      (fs : List (r.Db → r.Db))
      → Holds r P (run fs)
      → ((n : ℕ) → Holds r P (run (take n fs)))
      → Keeps r P (pipeline fs)
  unfolding pipeline
  Keeps-pipeline fs whole part = record { at = λ w h. step w h (next_trip w.trips) refl }
    where
      step :
          (w : World r)
          → P (r.view w.db)
          → (t : Trip) → next_trip w.trips ≡ t
          → P (r.view (pipeline fs w).1.db)
      step w h answered e = rw (e, pipeline) (whole w.db h)
      step w h (cut n x) e = rw (e, pipeline) (part n w.db h)
