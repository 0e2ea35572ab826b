-- ===== src/Jobs/Process/Batches.antt =====
-- The loop over the batches of chunks in Worker.process makes progress, ends, and has a result for every
-- unit (backend/jobs/worker.go).
use mathlib.Core.Path.{subst}
use mathlib.Core.List.{append_assoc, map-append}
use lok_lingo.Prelude.{
  ℕ, zero, suc, ◌≤◌, ◌<◌, ◌≡◌, refl, sym, ap, ◌∙◌, false, List, [], ◌∷◌, ◌++◌, map, All, concat,
  arith, length, length-append, take, drop, take-append-drop, All-take,
}
use lok_lingo.Jobs.Chunks.{ChunkUnit, TextChunk, build_text_chunks, is_nil}
use lok_lingo.Jobs.Chunks.Grouping.{units_of, build_text_chunks-concat}
use lok_lingo.Jobs.Chunks.Filled.{HasUnits, build_text_chunks-HasUnits}
use lok_lingo.Jobs.Process.State.{Outside}
use lok_lingo.Jobs.Process.Document.Chunk.{PageResult, result_units, Progress, run_batch}
use lok_lingo.Jobs.Process.Document.{translate_units, next_batch, batch_size, left_over, next_range}
use lok_lingo.Jobs.Process.Answers.{
  Holds, and_then-Holds, IsAnswering, AllStand, AllStand-concat, run_batch-AllStand,
}

pub drop-append_length {ℓ} : {A : Type ℓ} (xs ys : List A) → drop (length xs) (xs ++ ys) ≡ ys
drop-append_length [] ys = refl
drop-append_length (x ∷ xs) ys = drop-append_length xs ys

concat-append : (xss yss : List (List ChunkUnit)) → concat (xss ++ yss) ≡ concat xss ++ concat yss
concat-append [] yss = refl
concat-append (xs ∷ xss) yss =
    ap (λ r. xs ++ r) (concat-append xss yss) ∙ sym (append_assoc xs (concat xss) (concat yss))

batch_size-positive : (concurrency chunks : ℕ) → 0 < chunks → 0 < batch_size concurrency chunks
batch_size-positive concurrency chunks h = ground arith

take-units :
    (n : ℕ) (cs : List TextChunk)
    → concat (map units_of (take n cs)) ++ concat (map units_of (drop n cs))
      ≡ concat (map units_of cs)
take-units n cs =
    sym (concat-append (map units_of (take n cs)) (map units_of (drop n cs)))
    ∙ ap concat (sym (map-append units_of (take n cs) (drop n cs)))
    ∙ ap (λ l. concat (map units_of l)) (take-append-drop n cs)

-- What the next batch takes of the units that are left.
record IsBatch (us : List ChunkUnit) (batch : List TextChunk) (rest : List ChunkUnit) : Type 0 where
  some_chunk : is_nil batch ≡ false
  filled : All HasUnits batch
  parted : us ≡ concat (map units_of batch) ++ rest
  shorter : length rest < length us

take-IsBatch :
    (n : ℕ) (cs : List TextChunk)
    → 0 < n
    → 0 < length cs
    → All HasUnits cs
    → IsBatch (concat (map units_of cs)) (take n cs) (concat (map units_of (drop n cs)))
take-IsBatch zero cs n h a = elim n [ ]
take-IsBatch (suc n) [] m h a = elim h [ ]
take-IsBatch (suc n) (c ∷ cs) m h a = record {
  some_chunk = refl;
  filled = (a.0, All-take HasUnits n cs a.1);
  parted = sym (take-units (suc n) (c ∷ cs));
  shorter = omega (
    arith,
    a.0,
    ap (length {0}) (take-units n cs),
    length-append (concat (map units_of (take n cs))) (concat (map units_of (drop n cs))),
    length-append c.units (concat (map units_of cs)),
  );
}

some_chunks :
    (cs : List TextChunk) (u : ChunkUnit) (us : List ChunkUnit)
    → concat (map units_of cs) ≡ u ∷ us
    → 0 < length cs
some_chunks [] u us e = absurd (cc)
some_chunks (c ∷ cs) u us e = omega arith

module _ (o : Outside) (ctx : o.rt.Ctx) where
  rest_lem :
      (n : ℕ) (cs : List TextChunk)
      → left_over o ctx (take n cs) (concat (map units_of cs)) ≡ concat (map units_of (drop n cs))
  rest_lem n cs =
      ap (drop (length (concat (map units_of (take n cs))))) (sym (take-units n cs))
      ∙ drop-append_length (concat (map units_of (take n cs))) (concat (map units_of (drop n cs)))

  chunks_IsBatch :
      (concurrency : ℕ) (cs : List TextChunk)
      → 0 < length cs
      → All HasUnits cs
      → IsBatch
          (concat (map units_of cs))
          (next_batch o ctx concurrency cs)
          (left_over o ctx (next_batch o ctx concurrency cs) (concat (map units_of cs)))
  chunks_IsBatch concurrency cs h a =
      let n = batch_size concurrency (length cs) in
      subst (IsBatch (concat (map units_of cs)) (take n cs)) (sym (rest_lem n cs))
        (take-IsBatch n cs (batch_size-positive concurrency (length cs) h) h a)

  -- Every batch takes a unit.
  next_batch-IsBatch :
      (concurrency lo hi : ℕ) (u : ChunkUnit) (us : List ChunkUnit)
      → let batch = next_batch o ctx concurrency (build_text_chunks (u ∷ us) lo hi) in
        IsBatch (u ∷ us) batch (left_over o ctx batch (u ∷ us))
  next_batch-IsBatch concurrency lo hi u us =
      let cs = build_text_chunks (u ∷ us) lo hi in
      let e = build_text_chunks-concat (u ∷ us) lo hi in
      subst
        (λ vs.
          IsBatch vs (next_batch o ctx concurrency cs)
            (left_over o ctx (next_batch o ctx concurrency cs) vs))
        e
        (chunks_IsBatch concurrency cs (some_chunks cs u us e)
          (build_text_chunks-HasUnits (u ∷ us) lo hi))

  module _ (R : List ChunkUnit → List ChunkUnit → Type 0) (a : IsAnswering o ctx R) where
    -- The results stand for the units.
    abbrev pub AllDone : List ChunkUnit → List PageResult × Progress o → Type 0
    AllDone us q = R us (concat (map result_units q.0))

    batch_then_rest :
        (batch : List TextChunk) (us rest : List ChunkUnit) (rs more : List PageResult)
        → us ≡ concat (map units_of batch) ++ rest
        → AllStand o ctx R a batch rs
        → R rest (concat (map result_units more))
        → R us (concat (map result_units (rs ++ more)))
    batch_then_rest batch us rest rs more e h k =
        subst (λ vs. R vs (concat (map result_units (rs ++ more)))) (sym e)
          (subst (R (concat (map units_of batch) ++ rest))
            (sym (
              ap concat (map-append result_units rs more)
              ∙ concat-append (map result_units rs) (map result_units more)))
            (a.joined (concat (map units_of batch)) rest (concat (map result_units rs))
              (concat (map result_units more)) (AllStand-concat o ctx R a batch rs h) k))

    -- With fuel for its units the loop returns, and its results stand for the units.
    pub translate_units-AllDone :
        (fuel concurrency : ℕ) (targets : List ℕ) (range : ℕ × ℕ) (us : List ChunkUnit)
        (d : Progress o)
        → length us ≤ fuel
        → Holds (AllDone us) (translate_units o ctx fuel concurrency targets range us d)
    unfolding translate_units
    translate_units-AllDone zero concurrency targets range [] d h = a.same []
    translate_units-AllDone (suc fuel) concurrency targets range [] d h = a.same []
    translate_units-AllDone zero concurrency targets range (u ∷ us) d h = absurd (omega arith)
    translate_units-AllDone (suc fuel) concurrency targets range (u ∷ us) d h =
        let batch = next_batch o ctx concurrency (build_text_chunks (u ∷ us) range.0 range.1) in
        let rest = left_over o ctx batch (u ∷ us) in
        let b = next_batch-IsBatch concurrency range.0 range.1 u us in
        rw (b.some_chunk, translate_units)
          (and_then-Holds (λ q. AllStand o ctx R a batch q.0) (AllDone (u ∷ us))
            (run_batch o ctx targets batch d) _
            (run_batch-AllStand o ctx R a targets batch d b.filled)
            (λ q p.
              and_then-Holds (AllDone rest) (AllDone (u ∷ us))
                (translate_units o ctx fuel concurrency targets (next_range o ctx q.0 rest range)
                  rest q.1)
                _
                (translate_units-AllDone fuel concurrency targets (next_range o ctx q.0 rest range)
                  rest q.1 (omega (arith, b.shorter)))
                (λ t k. batch_then_rest batch (u ∷ us) rest q.0 t.0 b.parted p k)))
