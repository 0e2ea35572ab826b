-- ===== src/Jobs/Store/Trips.antt =====
-- Actions on the world of a job store: the server's state, what becomes of the next round trips, and the
-- clock. What a failed trip has already done at the server stays done (backend/jobs/store.go).
use lok_lingo.Prelude.{ℕ, zero, suc, List, [], ◌∷◌, ◌++◌, take}
use lok_lingo.Go.Text.{Text, codes}
use lok_lingo.Go.Failure.{GoError, Result, ok, err}
use lok_lingo.Jobs.Redis.{Redis}

-- What becomes of a round trip: the answer arrives, or the error arrives after so many of its commands
-- were executed.
pub data Trip : Type 0 where
  answered : Trip
  cut : ℕ → GoError → Trip

abbrev pub next_trip : List Trip → Trip
next_trip [] = answered
next_trip (t ∷ ts) = t

abbrev pub later_trips : List Trip → List Trip
later_trips [] = []
later_trips (t ∷ ts) = ts

pub record World (r : Redis) : Type 0 where
  pub db : r.Db
  pub trips : List Trip
  pub clock : ℕ  -- time.Now(), in nanoseconds

-- fmt.Errorf("<prefix>: %w", err)
abbrev pub wrap : Text → GoError → GoError
wrap prefix e = record e { message = prefix ++ (codes ": " ++ e.message) }

abbrev pub quiet : {Db : Type 0} → (Db → Db) → Db → Unit {0} × Db
quiet f db = (tt, f db)

abbrev pub run : {Db : Type 0} → List (Db → Db) → Db → Db
run [] db = db
run (f ∷ fs) db = run fs (f db)

abbrev pub Action : Redis → Type 0 → Type 0
Action r A = World r → Result A × World r

module _ {r : Redis} where
  module _ {A : Type 0} where
    unfoldable pub pure : A → Action r A
    pure a w = (ok a, w)

    unfoldable pub fail : GoError → Action r A
    fail e w = (err e, w)

    -- One command, or one script, which the server runs as a whole.
    unfoldable pub single : (r.Db → A × r.Db) → Action r A
    single f w =
        let (a, db') = f w.db in
        let later = record w { trips = later_trips w.trips } in
        elim (next_trip w.trips) [
          | answered ↦ (ok a, record later { db = db' })
          | cut n e ↦ elim n [ zero ↦ (err e, later) | suc m ↦ (err e, record later { db = db' }) ]
        ]

    -- if err != nil { return ..., fmt.Errorf("<prefix>: %w", err) }
    unfoldable pub wrapped : Text → Action r A → Action r A
    wrapped prefix m w =
        let (q, w') = m w in elim q [ ok a ↦ (ok a, w') | err e ↦ (err (wrap prefix e), w') ]

  abbrev pub continue : {A B : Type 0} → Result A → (A → Action r B) → Action r B
  continue (ok a) f w = f a w
  continue (err e) f w = (err e, w)

  infixl 5 ◌>>=◌ ◌>>◌
  unfoldable pub ◌>>=◌ : {A B : Type 0} → Action r A → (A → Action r B) → Action r B
  ◌>>=◌ m f w = let (q, w') = m w in continue q f w'

  abbrev pub ◌>>◌ : {A B : Type 0} → Action r A → Action r B → Action r B
  m >> n = m >>= λ _. n

  -- A pipeline: commands that are sent together, and run one after the other.
  unfoldable pub pipeline : List (r.Db → r.Db) → Action r (Unit {0})
  pipeline fs w =
      let later = record w { trips = later_trips w.trips } in
      elim (next_trip w.trips) [
        | answered ↦ (ok tt, record later { db = run fs w.db })
        | cut n e ↦ (err e, record later { db = run (take n fs) w.db })
      ]
