-- ===== src/Observability/Lifecycle.antt =====
-- The log of lifecycle events and the counters that they raise
-- (backend/internal/observability/lifecycle.go). Counters are numbers without the wrap of int64.
pub mod Recent
use lok_lingo.Prelude.{
  ℕ, zero, suc, ◌+◌, ◌-◌, ◌≡◌, Bool, true, false, not, ◌||◌, ◌&&◌, List, [], ◌∷◌, ◌++◌, Option,
  none, some, ltb, leb, ◌==◌, if◌then◌else◌, length, drop,
}
use lok_lingo.Prelude.Int.{ℤ, pos, negsuc}
use lok_lingo.Go.Text.{Text, text_eq, is_empty, codes}

pub record LifecycleEvent : Type 0 where
  pub job_id : Text
  pub correlation_id : Text
  pub provider : Text
  pub duration_ms : ℤ
  pub retry_count : ℤ
  pub queue_depth : ℤ
  pub timestamp : Text

pub record LifecycleEventRecord : Type 0 where
  pub event : Text
  pub payload : LifecycleEvent

pub record LifecycleContext : Type 0 where
  pub job_id : Text
  pub correlation_id : Text

pub record Latency : Type 0 where
  pub total_ms : ℕ
  pub count : ℕ

-- The package's variables.
pub record Metrics : Type 0 where
  pub ocr_latency : Latency
  pub translation_latency : Latency
  pub render_latency : Latency
  pub queue_wait : Latency
  pub retries_total : ℕ
  pub failovers_total : ℕ
  pub timeouts_total : ℕ
  pub chunk_started_total : ℕ
  pub chunk_completed_total : ℕ
  pub export_started_total : ℕ
  pub export_completed_total : ℕ
  pub job_failed_total : ℕ
  pub job_completed_total : ℕ
  pub lifecycle_events : List LifecycleEventRecord

abbrev pub lifecycle_events_max_len : ℕ
lifecycle_events_max_len = 2000

unfoldable pub append_lifecycle_event :
    LifecycleEventRecord → List LifecycleEventRecord → List LifecycleEventRecord
append_lifecycle_event r events =
    let longer = events ++ r ∷ [] in
    if ltb lifecycle_events_max_len (length longer)
    then drop (length longer - lifecycle_events_max_len) longer
    else longer

-- A negative duration counts as 0.
abbrev pub natural : ℤ → ℕ
natural (pos n) = n
natural (negsuc n) = 0

abbrev pub record_latency : ℤ → Latency → Latency
record_latency duration_ms l = record {
  total_ms = l.total_ms + natural duration_ms;
  count = l.count + 1;
}

abbrev pub is_positive : ℤ → Bool
is_positive (pos zero) = false
is_positive (pos (suc n)) = true
is_positive (negsuc n) = false

-- The switch of EmitLifecycleEvent.
unfoldable pub count_event : Text → ℤ → Metrics → Metrics
count_event event duration_ms m =
    if text_eq event (codes "chunk_started")
    then record m { chunk_started_total = m.chunk_started_total + 1 }
    else if text_eq event (codes "chunk_completed")
    then record m { chunk_completed_total = m.chunk_completed_total + 1 }
    else if text_eq event (codes "chunk_retry")
    then record m { retries_total = m.retries_total + 1 }
    else if text_eq event (codes "provider_failover")
    then record m { failovers_total = m.failovers_total + 1 }
    else if text_eq event (codes "render_completed")
    then record m { render_latency = record_latency duration_ms m.render_latency }
    else if text_eq event (codes "translation_started")
    then (if is_positive duration_ms
        then record m { translation_latency = record_latency duration_ms m.translation_latency }
        else m)
    else if text_eq event (codes "ocr_completed")
    then record m { ocr_latency = record_latency duration_ms m.ocr_latency }
    else if text_eq event (codes "export_started")
    then record m { export_started_total = m.export_started_total + 1 }
    else if text_eq event (codes "export_completed")
    then record m { export_completed_total = m.export_completed_total + 1 }
    else if text_eq event (codes "job_failed")
    then record m { job_failed_total = m.job_failed_total + 1 }
    else if text_eq event (codes "job_completed")
    then record m { job_completed_total = m.job_completed_total + 1 }
    else m

abbrev pub stamped : Text → LifecycleEvent → LifecycleEvent
stamped now payload =
    if is_empty payload.timestamp then record payload { timestamp = now } else payload

-- `now` is the formatted current time.
unfoldable pub emit_lifecycle_event : Text → Text → LifecycleEvent → Metrics → Metrics
emit_lifecycle_event now event payload m = count_event event payload.duration_ms (record m {
  lifecycle_events =
      append_lifecycle_event (record { event = event; payload = stamped now payload })
        m.lifecycle_events;
})

abbrev pub or_else : Text → Text → Text
or_else t other = if is_empty t then other else t

abbrev pub with_lineage : Option LifecycleContext → LifecycleEvent → LifecycleEvent
with_lineage none payload = payload
with_lineage (some found) payload = record payload {
  job_id = or_else payload.job_id found.job_id;
  correlation_id = or_else payload.correlation_id found.correlation_id;
}

-- `lineage` is what LifecycleContextFrom finds in the context.
unfoldable pub emit_lifecycle_event_from_context :
    Option LifecycleContext → Text → Text → LifecycleEvent → Metrics → Metrics
emit_lifecycle_event_from_context lineage now event payload m =
    emit_lifecycle_event now event (with_lineage lineage payload) m

-- A filter that is not empty must be met.
abbrev pub is_match : Text → Text → Bool
is_match wanted value = is_empty wanted || text_eq value wanted

abbrev pub is_wanted : Text → Text → Text → LifecycleEventRecord → Bool
is_wanted correlation_id job_id event r =
    is_match correlation_id r.payload.correlation_id
    && is_match job_id r.payload.job_id
    && is_match event r.event

abbrev pub reverse_onto :
    List LifecycleEventRecord → List LifecycleEventRecord → List LifecycleEventRecord
reverse_onto [] acc = acc
reverse_onto (r ∷ rs) acc = reverse_onto rs (r ∷ acc)

-- The loop of SnapshotLifecycleEvents over the records, the newest first, with so many places left.
unfoldable pub collect :
    (LifecycleEventRecord → Bool) → ℕ → List LifecycleEventRecord → List LifecycleEventRecord
collect wanted zero records = []
collect wanted (suc left) [] = []
collect wanted (suc left) (r ∷ records) =
    let found = collect wanted left records in
    let missed = collect wanted (suc left) records in if wanted r then r ∷ found else missed

-- limit <= 0
abbrev pub or_hundred : ℤ → ℕ
or_hundred (pos zero) = 100
or_hundred (pos (suc n)) = suc n
or_hundred (negsuc n) = 100

unfoldable pub snapshot_lifecycle_events :
    Text → Text → Text → ℤ → Metrics → List LifecycleEventRecord
snapshot_lifecycle_events correlation_id job_id event limit m =
    collect (is_wanted correlation_id job_id event) (or_hundred limit)
      (reverse_onto m.lifecycle_events [])
