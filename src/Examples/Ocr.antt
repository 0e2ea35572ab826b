-- ===== src/Examples/Ocr.antt =====
-- The chain of OCR providers over providers that fail or answer, and the log of lifecycle events, at concrete inputs
-- (backend/internal).
use mathlib.Core.List.{Perm}
use lok_lingo.Prelude.{
  ℕ, ◌+◌, ◌-◌, ◌≤◌, ◌≡◌, refl, inl, inr, Bool, true, List, [], ◌∷◌, Option, none, some, arith, take,
}
use lok_lingo.Prelude.Int.{pos}
use lok_lingo.Go.Equal.{text_eq→eq}
use lok_lingo.Go.Text.{Text, codes, text_eq, to_lower, trim_space, is_space, trim_left, trim_right}
use lok_lingo.Go.Failure.{plain_error, Result, ok, err}
use lok_lingo.Services.Orchestrator.Answers.{is_ok}
use lok_lingo.Ocr.Chain.{
  OcrEngine, OcrName, OcrRequest, OcrResult, OcrState, paddle, tesseract, ollama, unlimited,
  extract_with_fallback, extract_valid, providers_for_request, normalize_ocr_provider,
  validate_provider_result, select,
}
use lok_lingo.Ocr.Chain.Selection.{is_first, providers_for_request-is_first}
use lok_lingo.Ocr.Chain.Fallback.{extract_with_fallback-is_ok}
use lok_lingo.Ocr.Chain.Budget.{extract_with_fallback-IsUnderBudget, IsUnderBudget, fallback_events}
use lok_lingo.Observability.Lifecycle.{LifecycleEventRecord, Metrics, snapshot_lifecycle_events}
use lok_lingo.Observability.Lifecycle.Recent.{
  append_all, append_all-last, last, filter, backwards, Decides, IsLimit,
  snapshot_lifecycle_events-newest,
}

abbrev scanned : OcrResult (Unit {0})
scanned = record {
  text = codes "text";
  pages = 1;
  blocks = 0;
  retries = 0;
  provider = [];
  engine = [];
  rest = tt;
}

abbrev scan : OcrName → Result (Option (OcrResult (Unit {0})))
scan tesseract = ok (some scanned)
scan paddle = ok none
scan _ = err (plain_error (codes "down"))

abbrev scanners : OcrEngine
scanners = record {
  World = ℕ;
  Provider = OcrName;
  Rest = Unit {0};
  name = λ p. p;
  extract = λ p req w. (scan p, w + 1);
  is_pdf = true;
}

abbrev all_four : List OcrName
all_four = unlimited ∷ paddle ∷ tesseract ∷ ollama ∷ []

abbrev asked : OcrRequest
asked = record { lang = []; engine = codes " Paddle"; file_path = codes "a.pdf" }

abbrev at_rest : OcrState scanners
at_rest = record { world = 0; events = [] }

tesseract_answers :
    (req : OcrRequest) (s : OcrState scanners)
    → is_ok (extract_valid scanners tesseract req s).0 ≡ true
unfolding extract_valid validate_provider_result trim_space trim_left trim_right is_space
tesseract_answers req s = refl

asks_paddle : normalize_ocr_provider asked.engine ≡ some paddle
unfolding normalize_ocr_provider to_lower trim_space trim_left trim_right is_space
asks_paddle = refl

third :
    Path
      (List OcrName)
      (providers_for_request scanners all_four asked.engine)
      (paddle ∷ unlimited ∷ tesseract ∷ ollama ∷ [])
unfolding providers_for_request normalize_ocr_provider to_lower trim_space trim_left trim_right
    is_space select
third = refl

extract_with_fallback-is_ok_example :
    is_ok (extract_with_fallback scanners (pos 2) all_four asked at_rest).0 ≡ true
unfolding providers_for_request normalize_ocr_provider to_lower trim_space trim_left trim_right
    is_space select
extract_with_fallback-is_ok_example =
    extract_with_fallback-is_ok scanners (pos 2) tesseract tesseract_answers all_four 2 asked
      at_rest refl (omega arith) (omega arith)

extract_with_fallback-IsUnderBudget_example :
    (fallback_events (extract_with_fallback scanners (pos 2) all_four asked at_rest).1.events
      ≤ fallback_events [] + (4 - 1))
    × IsUnderBudget
        (pos 2)
        (fallback_events [])
        (fallback_events (extract_with_fallback scanners (pos 2) all_four asked at_rest).1.events)
extract_with_fallback-IsUnderBudget_example =
    extract_with_fallback-IsUnderBudget scanners (pos 2) all_four asked at_rest

providers_for_request-is_first_example :
    (is_first scanners paddle (providers_for_request scanners all_four asked.engine) ≡ true)
    × Perm (providers_for_request scanners all_four asked.engine) all_four
providers_for_request-is_first_example =
    providers_for_request-is_first scanners all_four asked.engine paddle asks_paddle refl refl

abbrev event_of : Text → LifecycleEventRecord
event_of job = record {
  event = codes "job_failed";
  payload = record {
    job_id = job;
    correlation_id = [];
    provider = [];
    duration_ms = pos 0;
    retry_count = pos 0;
    queue_depth = pos 0;
    timestamp = codes "now";
  };
}

append_all-last_example :
    append_all (event_of (codes "b") ∷ []) (event_of (codes "a") ∷ [])
    ≡ last 2000 (event_of (codes "a") ∷ event_of (codes "b") ∷ [])
append_all-last_example =
    append_all-last (event_of (codes "b") ∷ []) (event_of (codes "a") ∷ []) (omega arith)

abbrev some_metrics : Metrics
some_metrics = record {
  ocr_latency = record { total_ms = 0; count = 0 };
  translation_latency = record { total_ms = 0; count = 0 };
  render_latency = record { total_ms = 0; count = 0 };
  queue_wait = record { total_ms = 0; count = 0 };
  retries_total = 0;
  failovers_total = 0;
  timeouts_total = 0;
  chunk_started_total = 0;
  chunk_completed_total = 0;
  export_started_total = 0;
  export_completed_total = 0;
  job_failed_total = 0;
  job_completed_total = 0;
  lifecycle_events = event_of (codes "a") ∷ event_of (codes "b") ∷ event_of (codes "a") ∷ [];
}

abbrev is_of_a : LifecycleEventRecord → Bool
is_of_a r = text_eq r.payload.job_id (codes "a")

is_of_a-Decides : Decides [] (codes "a") [] is_of_a
is_of_a-Decides r = (
  λ e. (inl refl, inr (text_eq→eq r.payload.job_id (codes "a") e), inl refl),
  λ m. elim m.1 [ inl z ↦ absurd (cc) | inr e ↦ rw e refl ],
)

five-IsLimit : IsLimit (pos 5) 5
five-IsLimit = record {
  positive = λ k e. cc;
  at_zero = λ e. absurd (cc);
  negative = λ k e. absurd (cc);
}

snapshot_lifecycle_events-newest_example :
    snapshot_lifecycle_events [] (codes "a") [] (pos 5) some_metrics
    ≡ take 5 (filter is_of_a (backwards some_metrics.lifecycle_events))
snapshot_lifecycle_events-newest_example =
    snapshot_lifecycle_events-newest [] (codes "a") [] (pos 5) 5 is_of_a some_metrics five-IsLimit
      is_of_a-Decides
