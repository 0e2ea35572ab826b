-- ===== src/Jobs/Translate.antt =====
-- Translation of one chunk (backend/jobs/worker.go): translateChunk, which splits a chunk that fails. What
-- the code reaches outside itself (contexts, timers, the semaphore, the translation service) is the
-- section's parameter.
pub mod Retry
pub mod Alignment
pub mod Backoff
pub mod Failing
use lok_lingo.Prelude.{
  ℕ, zero, suc, ◌+◌, ◌*◌, ◌/◌, Bool, true, false, ◌&&◌, ◌||◌, not, List, [], ◌∷◌, ◌++◌, map, Option,
  none, some, ltb, ◌==◌, if◌then◌else◌, length, take, drop,
}
use lok_lingo.Go.Text.{Text, codes, trim_space, fields, join, split, contains}
use lok_lingo.Go.Failure.{GoError, Result, ok, err}
use lok_lingo.Jobs.Chunks.{ChunkUnit, TextChunk, sum_unit_words}
use lok_lingo.Jobs.Translate.Retry.{
  translate_max_retries, translate_retry_base, translate_chunk_timeout, is_rate_limit_error,
  is_transient_network_error, is_retryable, RetryMetrics, inc_translate_retry, inc_timeout_retry,
  inc_split, total_retry_events, Runtime, State, is_done, moved, call, back_off, retry_from,
  translate_with_retry, translate_with_chunk_timeout,
}

abbrev pub pdf_chunk_sep : Text
pdf_chunk_sep = 10 ∷ 10 ∷ codes "[[[LK_PAGE_BREAK]]]" ++ 10 ∷ 10 ∷ []

-- How a call ends: `panics` is an index out of range, `runs_out` is the end of the fuel.
pub data Outcome (A : Type 0) : Type 0 where
  returns : A → Outcome A
  panics : Outcome A
  runs_out : Outcome A

-- isChunkTimeoutError(ctx, nil, err), where ctx is not done
abbrev pub is_timeout : GoError → Bool
is_timeout e = e.deadline || contains e.message (codes "context deadline exceeded")

abbrev pub translated_unit : ChunkUnit → Text → ChunkUnit
translated_unit u part = record {
  page_index = u.page_index;
  text = part;
  words = length (fields part);
}

-- The parts of the answer, one for each unit. The count is of the part before it is trimmed.
abbrev pub assign : List ChunkUnit → List Text → List ChunkUnit
assign (u ∷ us) (part ∷ parts) =
    record { page_index = u.page_index; text = trim_space part; words = length (fields part) }
    ∷ assign us parts
assign _ _ = []

abbrev pub texts_of : List ChunkUnit → List Text
texts_of = map (λ u. u.text)

-- mid := len(chunk.units) / 2, at least 1
abbrev pub middle : List ChunkUnit → ℕ
middle us = if length us / 2 == 0 then 1 else length us / 2

abbrev pub split_metrics : GoError → RetryMetrics → RetryMetrics
split_metrics e m = inc_split (if is_timeout e then inc_timeout_retry m else m)

-- The answers of the two halves, the second asked for only if the first is there.
abbrev pub both {ℓ} :
    {S : Type ℓ}
    → Outcome (Result (List ChunkUnit)) × S
    → (S → Outcome (Result (List ChunkUnit)) × S)
    → Outcome (Result (List ChunkUnit)) × S
both (returns (ok left), s) next =
    let (r, s') = next s in
    elim r [
      | returns q ↦ elim q [
        | ok right ↦ (returns (ok (left ++ right)), s')
        | err e ↦ (returns (err e), s')
      ]
      | panics ↦ (panics, s')
      | runs_out ↦ (runs_out, s')
    ]
both (r, s) next = (r, s)

module _ (rt : Runtime) where
  open rt use {
    World, Ctx, ctx_err, with_timeout, cancel, acquire, release, sleep, emit_chunk_retry, translate,
  }

  -- One call for each unit, when the model changed the separator.
  unfoldable pub translate_each :
      List ChunkUnit → Ctx → Text → Text → State rt → Result (List ChunkUnit) × State rt
  translate_each [] ctx source target s = (ok [], s)
  translate_each (u ∷ us) ctx source target s =
      let (r, s1) = translate_with_retry rt ctx u.text source target s in
      elim r [
        | err e ↦ (err e, s1)
        | ok part ↦
            let (rest, s2) = translate_each us ctx source target s1 in
            elim rest [ err e ↦ (err e, s2) | ok out ↦ (ok (translated_unit u part ∷ out), s2) ]
      ]

  unfoldable pub translate_single :
      ChunkUnit → Ctx → Text → Text → State rt → Result (List ChunkUnit) × State rt
  translate_single u ctx source target s =
      let (r, s1) = translate_with_chunk_timeout rt ctx u.text source target s in
      elim r [
        | ok translated ↦ (ok (translated_unit u translated ∷ []), s1)
        | err e ↦ elim (ctx_err ctx s1.world) [ some done ↦ (err done, s1) | none ↦ (err e, s1) ]
      ]

  -- The call for the joined texts of several units, under its own timeout.
  unfoldable pub translate_joined :
      List ChunkUnit → Ctx → Text → Text → State rt → Result Text × State rt
  translate_joined us ctx source target s =
      let (chunk_ctx, w) = with_timeout ctx translate_chunk_timeout s.world in
      let (r, s') =
        translate_with_retry rt chunk_ctx (join (texts_of us) pdf_chunk_sep) source target
          (moved rt w s) in
      (r, moved rt (cancel chunk_ctx s'.world) s')

  unfoldable pub use_answer :
      List ChunkUnit → Text → Ctx → Text → Text → State rt → Result (List ChunkUnit) × State rt
  use_answer us translated ctx source target s =
      let parts = split translated pdf_chunk_sep in
      if length parts == length us
      then (ok (assign us parts), s)
      else translate_each us ctx source target s

  abbrev pub count_split : GoError → State rt → State rt
  count_split e s = record s { metrics = split_metrics e s.metrics }

  -- translateChunk on the units of the chunk. The fuel bounds the depth of the splits.
  unfoldable pub translate_chunk :
      ℕ
      → List ChunkUnit
      → Ctx
      → Text
      → Text
      → State rt
      → Outcome (Result (List ChunkUnit)) × State rt
  translate_chunk zero us ctx source target s = (runs_out, s)
  translate_chunk (suc fuel) (u ∷ []) ctx source target s =
      let (r, s') = translate_single u ctx source target s in (returns r, s')
  translate_chunk (suc fuel) [] ctx source target s =
      let (r, s1) = translate_joined [] ctx source target s in
      elim r [
        | ok translated ↦
            let (out, s2) = use_answer [] translated ctx source target s1 in (returns out, s2)
        | err e ↦ elim (ctx_err ctx s1.world) [
          | some done ↦ (returns (err done), s1)
          | none ↦ (panics, s1)
        ]
      ]
  translate_chunk (suc fuel) (u ∷ v ∷ us) ctx source target s =
      let (r, s1) = translate_joined (u ∷ v ∷ us) ctx source target s in
      elim r [
        | ok translated ↦
            let (out, s2) = use_answer (u ∷ v ∷ us) translated ctx source target s1 in
            (returns out, s2)
        | err e ↦ elim (ctx_err ctx s1.world) [
          | some done ↦ (returns (err done), s1)
          | none ↦
              let mid = middle (u ∷ v ∷ us) in
              both
                (translate_chunk fuel (take mid (u ∷ v ∷ us)) ctx source target (count_split e s1))
                (translate_chunk fuel (drop mid (u ∷ v ∷ us)) ctx source target)
        ]
      ]
