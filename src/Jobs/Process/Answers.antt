-- ===== src/Jobs/Process/Answers.antt =====
-- The loops over the chunks in Worker.process return, and each result stands for its chunk
-- (backend/jobs/worker.go): for a relation that a chunk has to itself, to a translation and to a checkpoint.
use lok_lingo.Prelude.{
  ℕ, ◌<◌, ◌≡◌, refl, ap, ◌∙◌, inl, inr, List, [], ◌∷◌, ◌++◌, map, All, some, concat, arith,
  Option-cases, length,
}
use lok_lingo.Go.Text.{Text}
use lok_lingo.Go.Failure.{Result, ok, err}
use lok_lingo.Jobs.Chunks.{ChunkUnit, TextChunk}
use lok_lingo.Jobs.Chunks.Grouping.{units_of}
use lok_lingo.Jobs.Chunks.Filled.{HasUnits}
use lok_lingo.Jobs.Translate.{translate_chunk, Outcome, returns, panics, runs_out}
use lok_lingo.Jobs.Translate.Retry as Retry
use lok_lingo.Jobs.Translate.Alignment.{ReturnsAligned, translate_chunk-ReturnsAligned}
use lok_lingo.Jobs.Process.State.{chunk_started, emit, with_world, Outside, Run, and_then}
use lok_lingo.Jobs.Process.Document.Chunk.{
  PageResult, result_units, Progress, look_up_checkpoint, settle, translate_anew, run_chunk,
  run_batch,
}

-- A call that returns, with an answer that has the property.
abbrev pub Holds : {A : Type 0} → (A → Type 0) → Outcome A → Type 0
Holds P (returns a) = P a
Holds P panics = ⊥
Holds P runs_out = ⊥

pub and_then-Holds :
    {A B : Type 0} (P : A → Type 0) (Q : B → Type 0) (a : Outcome A) (f : A → Outcome B)
    → Holds P a
    → ((x : A) → P x → Holds Q (f x))
    → Holds Q (and_then a f)
and_then-Holds P Q (returns x) f h k = k x h
and_then-Holds P Q panics f h k = absurd h
and_then-Holds P Q runs_out f h k = absurd h

pub Holds-map :
    {A : Type 0} (P Q : A → Type 0) (a : Outcome A) → Holds P a → ((x : A) → P x → Q x) → Holds Q a
Holds-map P Q (returns x) h k = k x h
Holds-map P Q panics h k = absurd h
Holds-map P Q runs_out h k = absurd h

-- What an outside guarantees of the answers for a chunk, for a relation of the units of a chunk to those
-- of its result.
pub record IsAnswering (o : Outside) (ctx : o.rt.Ctx) (R : List ChunkUnit → List ChunkUnit → Type 0)
    : Type 0 where
  pub same : (us : List ChunkUnit) → R us us
  pub joined : (us vs us' vs' : List ChunkUnit) → R us us' → R vs vs' → R (us ++ vs) (us' ++ vs')
  pub translated :
      (us out : List ChunkUnit) (source target : Text) (s : Retry.State o.rt)
      → (translate_chunk o.rt (length us) us ctx source target s).0 ≡ returns (ok out)
      → R us out
  pub kept :
      (us out : List ChunkUnit) (s : Run o)
      → (look_up_checkpoint o ctx us s).0 ≡ some out
      → R us out

-- The call for a chunk that has a unit returns.
pub translate_chunk-returns :
    (o : Outside) (ctx : o.rt.Ctx) (us : List ChunkUnit) (source target : Text)
    (s : Retry.State o.rt)
    → 0 < length us
    → (r : Result (List ChunkUnit)) × ((translate_chunk o.rt (length us) us ctx source target s).0
        ≡ returns r)
translate_chunk-returns o ctx us source target s h =
    go (translate_chunk o.rt (length us) us ctx source target s).0
      (translate_chunk-ReturnsAligned o.rt (length us) us ctx source target s (omega arith) h)
  where
    go :
        (a : Outcome (Result (List ChunkUnit)))
        → ReturnsAligned us a
        → (r : Result (List ChunkUnit)) × (a ≡ returns r)
    go (returns r) k = (r, refl)
    go panics k = absurd k
    go runs_out k = absurd k

module _ (o : Outside) (ctx : o.rt.Ctx) (R : List ChunkUnit → List ChunkUnit → Type 0)
    (a : IsAnswering o ctx R) where
  abbrev Stands : List ChunkUnit → PageResult × Progress o → Type 0
  Stands us q = R us q.0.units

  settle-Stands :
      (targets : List ℕ) (us : List ChunkUnit) (dur : ℕ) (r : Result (List ChunkUnit))
      (d : Progress o)
      → ((out : List ChunkUnit) → r ≡ ok out → R us out)
      → Stands us (settle o ctx targets us dur r d)
  unfolding settle
  settle-Stands targets us dur (err e) d h = a.same us
  settle-Stands targets us dur (ok out) d h = h out refl

  translate_anew-Stands :
      (targets : List ℕ) (us : List ChunkUnit) (d : Progress o)
      → 0 < length us
      → Holds (Stands us) (translate_anew o ctx targets us d)
  unfolding translate_anew
  translate_anew-Stands targets us d h = elim (Option-cases (o.take_slot ctx d.run.inner.world).0) [
    | inr (e, k) ↦ rw (k, translate_anew) (a.same us)
    | inl k ↦
        let s1 = emit o chunk_started (with_world o (o.take_slot ctx d.run.inner.world).1 d.run) in
        let (r, e) =
          translate_chunk-returns o ctx us d.run.job.source d.run.job.target s1.inner h in
        rw (k, translate_anew)
          (rw e (
            settle-Stands targets us _ r _
              (λ out f. a.translated us out _ _ s1.inner (e ∙ ap returns f))))
  ]

  run_chunk-Stands :
      (targets : List ℕ) (us : List ChunkUnit) (d : Progress o)
      → 0 < length us
      → Holds (Stands us) (run_chunk o ctx targets us d)
  unfolding run_chunk
  run_chunk-Stands targets us d h = elim (Option-cases (look_up_checkpoint o ctx us d.run).0) [
    | inr (out, e) ↦ rw (e, run_chunk) (a.kept us out d.run e)
    | inl e ↦ rw (e, run_chunk) (translate_anew-Stands targets us _ h)
  ]

  -- The results of a batch, each for its chunk.
  abbrev pub AllStand : List TextChunk → List PageResult → Type 0
  AllStand [] [] = Unit
  AllStand (c ∷ cs) (r ∷ rs) = R c.units r.units × AllStand cs rs
  AllStand _ _ = ⊥

  pub run_batch-AllStand :
      (targets : List ℕ) (cs : List TextChunk) (d : Progress o)
      → All HasUnits cs
      → Holds (λ q. AllStand cs q.0) (run_batch o ctx targets cs d)
  unfolding run_batch
  run_batch-AllStand targets [] d h = tt
  run_batch-AllStand targets (c ∷ cs) d h =
      and_then-Holds (Stands c.units) (λ q. AllStand (c ∷ cs) q.0)
        (run_chunk o ctx targets c.units d) _ (run_chunk-Stands targets c.units d h.0)
        (λ q p.
          and_then-Holds (λ t. AllStand cs t.0) (λ t. AllStand (c ∷ cs) t.0)
            (run_batch o ctx targets cs q.1) _ (run_batch-AllStand targets cs q.1 h.1)
            (λ t u. (p, u)))

  pub AllStand-concat :
      (cs : List TextChunk) (rs : List PageResult)
      → AllStand cs rs
      → R (concat (map units_of cs)) (concat (map result_units rs))
  AllStand-concat [] [] h = a.same []
  AllStand-concat [] (r ∷ rs) h = absurd h
  AllStand-concat (c ∷ cs) [] h = absurd h
  AllStand-concat (c ∷ cs) (r ∷ rs) h =
      a.joined c.units (concat (map units_of cs)) r.units (concat (map result_units rs)) h.0
        (AllStand-concat cs rs h.1)
