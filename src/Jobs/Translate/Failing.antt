-- ===== src/Jobs/Translate/Failing.antt =====
-- A translation service that fails at every call: no call for a chunk has an answer (backend/jobs/worker.go).
use lok_lingo.Prelude.{
  ℕ, zero, suc, ◌+◌, ◌*◌, ◌≡◌, refl, inl, inr, ◌||◌, not, List, [], ◌∷◌, Bool-cases, Option-cases,
  take,
}
use lok_lingo.Go.Text.{Text}
use lok_lingo.Go.Failure.{GoError, Result, ok, err}
use lok_lingo.Jobs.Chunks.{ChunkUnit}
use lok_lingo.Jobs.Translate.Retry.{
  Runtime, State, call, back_off, is_retryable, is_done, retry_from, translate_with_retry,
  translate_with_chunk_timeout, translate_max_retries, translate_retry_base,
}
use lok_lingo.Jobs.Translate.{
  Outcome, returns, panics, runs_out, translate_single, translate_joined, count_split,
  translate_chunk, both, middle,
}

abbrev pub IsFailing : Runtime → Type 0
IsFailing rt =
    (ctx : rt.Ctx) (text source target : Text) (w : rt.World)
    → (e : GoError) × ((rt.translate ctx text source target w).0 ≡ err e)

abbrev IsErr {ℓ} : {A : Type ℓ} → Result A → Type 0
IsErr (ok a) = ⊥
IsErr (err e) = Unit

the_error {ℓ} : {A : Type ℓ} (r : Result A) → IsErr r → (e : GoError) × (r ≡ err e)
the_error (ok a) h = absurd h
the_error (err e) h = (e, refl)

-- The call does not return an answer.
abbrev pub HasNoAnswer : Outcome (Result (List ChunkUnit)) → Type 0
HasNoAnswer (returns (ok us)) = ⊥
HasNoAnswer _ = Unit

both-HasNoAnswer :
    {S : Type 0} (a : Outcome (Result (List ChunkUnit)) × S)
    (next : S → Outcome (Result (List ChunkUnit)) × S)
    → HasNoAnswer a.0
    → HasNoAnswer (both a next).0
both-HasNoAnswer (returns (ok us), s) next h = absurd h
both-HasNoAnswer (returns (err e), s) next h = tt
both-HasNoAnswer (panics, s) next h = tt
both-HasNoAnswer (runs_out, s) next h = tt

module _ (rt : Runtime) (failing : IsFailing rt) where
  retry_from-IsErr :
      (left attempt delay : ℕ) (ctx : rt.Ctx) (text source target : Text) (s : State rt)
      → IsErr (retry_from rt left attempt delay ctx text source target s).0
  unfolding retry_from
  retry_from-IsErr zero attempt delay ctx text source target s =
      rw (failing ctx text source target s.world).1 tt
  retry_from-IsErr (suc left) attempt delay ctx text source target s =
      let (e, f) = failing ctx text source target s.world in
      let s1 = (call rt ctx text source target s).1 in
      elim (Bool-cases (not (is_retryable e) || is_done rt ctx s1.world)) [
        | inl g ↦ rw (f, retry_from) (rw g tt)
        | inr g ↦ elim (Option-cases (back_off rt ctx attempt delay s1).0) [
          | inr (d, k) ↦ rw (f, retry_from) (rw g (rw k tt))
          | inl k ↦
              rw (f, retry_from)
                (rw g (
                  rw k (
                    retry_from-IsErr left (attempt + 1) (delay * 2) ctx text source target
                      (back_off rt ctx attempt delay s1).1)))
        ]
      ]

  translate_with_retry-IsErr :
      (ctx : rt.Ctx) (text source target : Text) (s : State rt)
      → IsErr (translate_with_retry rt ctx text source target s).0
  unfolding translate_with_retry
  translate_with_retry-IsErr ctx text source target s =
      elim (Option-cases (rt.acquire ctx s.world).0) [
        | inr (e, k) ↦ rw (k, translate_with_retry) tt
        | inl k ↦
            rw (k, translate_with_retry)
              (retry_from-IsErr translate_max_retries 0 translate_retry_base ctx text source target
                _)
      ]

  with_timeout-IsErr :
      (ctx : rt.Ctx) (text source target : Text) (s : State rt)
      → IsErr (translate_with_chunk_timeout rt ctx text source target s).0
  unfolding translate_with_chunk_timeout
  with_timeout-IsErr ctx text source target s = translate_with_retry-IsErr _ text source target _

  translate_single-IsErr :
      (u : ChunkUnit) (ctx : rt.Ctx) (source target : Text) (s : State rt)
      → IsErr (translate_single rt u ctx source target s).0
  unfolding translate_single
  translate_single-IsErr u ctx source target s =
      let (r, s1) = translate_with_chunk_timeout rt ctx u.text source target s in
      let (e, f) = the_error r (with_timeout-IsErr ctx u.text source target s) in
      elim (Option-cases (rt.ctx_err ctx s1.world)) [
        | inl k ↦ rw (f, translate_single) (rw k tt)
        | inr (d, k) ↦ rw (f, translate_single) (rw k tt)
      ]

  translate_joined-IsErr :
      (us : List ChunkUnit) (ctx : rt.Ctx) (source target : Text) (s : State rt)
      → IsErr (translate_joined rt us ctx source target s).0
  unfolding translate_joined
  translate_joined-IsErr us ctx source target s = translate_with_retry-IsErr _ _ source target _

  pub translate_chunk-HasNoAnswer :
      (fuel : ℕ) (us : List ChunkUnit) (ctx : rt.Ctx) (source target : Text) (s : State rt)
      → HasNoAnswer (translate_chunk rt fuel us ctx source target s).0
  unfolding translate_chunk
  translate_chunk-HasNoAnswer zero us ctx source target s = tt
  translate_chunk-HasNoAnswer (suc fuel) [] ctx source target s =
      let (r, s1) = translate_joined rt [] ctx source target s in
      let (e, f) = the_error r (translate_joined-IsErr [] ctx source target s) in
      elim (Option-cases (rt.ctx_err ctx s1.world)) [
        | inl k ↦ rw (f, translate_chunk) (rw k tt)
        | inr (d, k) ↦ rw (f, translate_chunk) (rw k tt)
      ]
  translate_chunk-HasNoAnswer (suc fuel) (u ∷ []) ctx source target s =
      let (e, f) =
        the_error (translate_single rt u ctx source target s).0
          (translate_single-IsErr u ctx source target s) in
      rw f tt
  translate_chunk-HasNoAnswer (suc fuel) (u ∷ v ∷ us) ctx source target s =
      let (r, s1) = translate_joined rt (u ∷ v ∷ us) ctx source target s in
      let (e, f) = the_error r (translate_joined-IsErr (u ∷ v ∷ us) ctx source target s) in
      let mid = middle (u ∷ v ∷ us) in
      elim (Option-cases (rt.ctx_err ctx s1.world)) [
        | inr (d, k) ↦ rw (f, translate_chunk) (rw k tt)
        | inl k ↦
            rw (f, translate_chunk)
              (rw k (
                both-HasNoAnswer _ _ (
                  translate_chunk-HasNoAnswer fuel (take mid (u ∷ v ∷ us)) ctx source target
                    (count_split rt e s1))))
      ]
