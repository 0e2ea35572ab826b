-- ===== src/Middleware/Gate.antt =====
-- The cap on the requests that are in flight on a route (InflightGate in backend/middleware/inflight_gate.go).
pub mod Cap
use lok_lingo.Prelude.{ℕ, zero, suc, ◌+◌, ◌-◌, Bool, ◌||◌, List, [], ◌∷◌, ltb, if◌then◌else◌}
use lok_lingo.Prelude.Int.{ℤ, pos, negsuc}
use lok_lingo.Go.Text.{Text, text_eq, is_empty}

-- maxInflight, at least 1: the capacity of the semaphore
abbrev pub capacity : ℤ → ℕ
capacity (pos zero) = 1
capacity (pos (suc n)) = suc n
capacity (negsuc n) = 1

-- What the gate does with a request: it is passed on without a slot, or with one, or is refused (429).
pub data Admission : Type 0 where
  passed admitted refused : Admission

abbrev pub applies : Text → Text → Bool
applies applies_to_path path = is_empty applies_to_path || text_eq path applies_to_path

-- What the handler does with a request before c.Next(), when so many slots are in use: the slots in use after it.
unfoldable pub enter : ℤ → Text → Text → ℕ → Admission × ℕ
enter max_inflight applies_to_path path in_use =
    if applies applies_to_path path
    then (if ltb in_use (capacity max_inflight) then (admitted, in_use + 1) else (refused, in_use))
    else (passed, in_use)

-- What it does when c.Next() has returned or panicked: the deferred receive, if there is one.
unfoldable pub leave : Admission → ℕ → ℕ
leave admitted in_use = in_use - 1
leave passed in_use = in_use
leave refused in_use = in_use

-- A request whose handler waits for c.Next().
pub record Request : Type 0 where
  pub path : Text
  pub admission : Admission

-- The slots in use, and the requests for which c.Next() runs.
pub record GateState : Type 0 where
  pub in_use : ℕ
  pub running : List Request

-- A request comes in, or the one at this place among those that run is done.
pub data GateEvent : Type 0 where
  comes : Text → GateEvent
  is_done : ℕ → GateEvent

abbrev pub take_in : Text → Admission × ℕ → GateState → GateState
take_in path (refused, n) s = record s { in_use = n }
take_in path (a, n) s = record {
  in_use = n;
  running = record { path = path; admission = a } ∷ s.running;
}

-- The request at a place is taken out, and its handler goes on.
unfoldable pub complete : ℕ → ℕ → List Request → GateState
complete i in_use [] = record { in_use = in_use; running = [] }
complete zero in_use (q ∷ qs) = record { in_use = leave q.admission in_use; running = qs }
complete (suc i) in_use (q ∷ qs) =
    let s = complete i in_use qs in record s { running = q ∷ s.running }

unfoldable pub handle : ℤ → Text → GateEvent → GateState → GateState
handle max_inflight applies_to_path (comes path) s =
    take_in path (enter max_inflight applies_to_path path s.in_use) s
handle max_inflight applies_to_path (is_done i) s = complete i s.in_use s.running

-- The handlers of a route over a sequence of events.
unfoldable pub serve : ℤ → Text → List GateEvent → GateState → GateState
serve max_inflight applies_to_path [] s = s
serve max_inflight applies_to_path (e ∷ es) s =
    serve max_inflight applies_to_path es (handle max_inflight applies_to_path e s)
