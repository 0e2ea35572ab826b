-- ===== src/Examples/Translate.antt =====
-- Translation against a service that answers from a list and never makes a call wait.
use lok_lingo.Prelude.{ℕ, ◌≡◌, refl, true, List, [], ◌∷◌, none, arith}
use lok_lingo.Go.Text.{Text, codes, contains, fields, is_space}
use lok_lingo.Go.Failure.{plain_error, GoError, Result, ok, err}
use lok_lingo.Jobs.Chunks.{ChunkUnit}
use lok_lingo.Jobs.Translate.Retry.{
  Runtime, State, moved, is_retryable, is_rate_limit_error, is_transient_network_error, back_off,
  translate_with_retry, retry_from, translate_with_chunk_timeout, inc_split,
}
use lok_lingo.Jobs.Translate.{translate_chunk, translate_single, translate_joined, returns}
use lok_lingo.Jobs.Translate.Alignment.{ReturnsAligned, translate_chunk-ReturnsAligned}
use lok_lingo.Jobs.Translate.Backoff.{start, fail, translate_with_retry-IsFinal}

abbrev pub failing : Text → GoError
failing m = plain_error m

abbrev answer : List (Result Text) → Result Text × List (Result Text)
answer [] = (err (failing (codes "no answer")), [])
answer (r ∷ rs) = (r, rs)

abbrev pub script : Runtime
script = record {
  World = List (Result Text);
  Ctx = ℕ;
  ctx_err = λ ctx w. none;
  with_timeout = λ ctx ms w. (ctx, w);
  cancel = λ ctx w. w;
  acquire = λ ctx w. (none, w);
  release = λ w. w;
  sleep = λ ctx ms w. (none, w);
  emit_chunk_retry = λ ctx n w. w;
  translate = λ ctx text source target w. answer w;
}

abbrev pub with_answers : List (Result Text) → State script
with_answers rs = record {
  world = rs;
  metrics = record { translate_retry_count = 0; timeout_retry_count = 0; split_count = 0 };
}

abbrev unit : ℕ → ChunkUnit
unit page = record { page_index = page; text = codes "hi"; words = 1 }

abbrev two_units : List ChunkUnit
two_units = unit 0 ∷ unit 3 ∷ []

-- The joined call fails, so the chunk is split, and each unit is translated by its own call.
abbrev split_answers : State script
split_answers = with_answers (err (failing (codes "bad")) ∷ ok (codes "A") ∷ ok (codes "B C") ∷ [])

split_test :
    (translate_chunk script 2 two_units 0 [] [] split_answers).0
    ≡ returns (
        ok (
          record { page_index = 0; text = codes "A"; words = 1 }
          ∷ record { page_index = 3; text = codes "B C"; words = 2 }
          ∷ []))
unfolding translate_chunk translate_joined translate_single translate_with_chunk_timeout
    translate_with_retry retry_from is_rate_limit_error is_transient_network_error contains fields
    is_space inc_split
split_test = refl

translate_chunk-ReturnsAligned_example :
    ReturnsAligned two_units (translate_chunk script 2 two_units 0 [] [] split_answers).0
translate_chunk-ReturnsAligned_example =
    translate_chunk-ReturnsAligned script 2 two_units 0 [] [] split_answers (omega arith)
      (omega arith)

abbrev one_timeout : List (Result Text)
one_timeout = err (failing (codes "timeout")) ∷ ok (codes "A") ∷ []

abbrev after_one : State script
after_one =
    (back_off script 0 0 500 (moved script (ok (codes "A") ∷ []) (with_answers one_timeout))).1

timeout_retryable : is_retryable (failing (codes "timeout")) ≡ true
unfolding is_rate_limit_error is_transient_network_error contains
timeout_retryable = refl

translate_with_retry-IsFinal_example :
    (translate_with_retry script 0 [] [] [] (with_answers one_timeout)
      ≡ (ok (codes "A"), moved script [] after_one))
    × (◌≡◌ {A = ℕ} 1000 1000)
    × (after_one.metrics.translate_retry_count ≡ 1)
    × (after_one.metrics.timeout_retry_count ≡ 0)
    × (after_one.metrics.split_count ≡ 0)
translate_with_retry-IsFinal_example =
    translate_with_retry-IsFinal script 0 [] [] [] (with_answers one_timeout) refl (omega arith)
      (fail (failing (codes "timeout")) refl timeout_retryable refl refl start) tt
