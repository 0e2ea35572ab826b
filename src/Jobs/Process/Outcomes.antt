-- ===== src/Jobs/Process/Outcomes.antt =====
-- What becomes of a document that is not cached (Worker.process in backend/jobs/worker.go), by what the
-- service and the checkpoints answer.
use mathlib.Core.List.{map-append}
use mathlib.Core.Path.{subst}
use lok_lingo.Prelude.{
  ℕ, ◌<◌, ◌≡◌, refl, sym, ap, ◌∙◌, ◌⊎◌, inl, inr, List, [], ◌∷◌, ◌++◌, Option, none, some, arith,
  length,
}
use lok_lingo.Go.Text.{Text, fields}
use lok_lingo.Go.Failure.{GoError, Result, ok, err}
use lok_lingo.Go.Spaces.{words_of}
use lok_lingo.Jobs.Job.{JobId, Job, completed, failed}
use lok_lingo.Jobs.Options.{Tuning}
use lok_lingo.Jobs.Chunks.{ChunkUnit, build_chunk_units}
use lok_lingo.Jobs.Translate.{texts_of, translate_chunk, Outcome, returns, panics, runs_out}
use lok_lingo.Jobs.Translate.Retry as Retry
use lok_lingo.Jobs.Translate.Alignment.{pages_of, ReturnsAligned, translate_chunk-ReturnsAligned}
use lok_lingo.Jobs.Translate.Failing.{IsFailing, HasNoAnswer, translate_chunk-HasNoAnswer}
use lok_lingo.Jobs.Process.State.{Outside, Run, CheckpointStore}
use lok_lingo.Jobs.Process.Document.Chunk.{
  chunk_checkpoint_key, key_of, look_up_in, look_up_checkpoint,
}
use lok_lingo.Jobs.Process.Document.{translate_document, translate_pages}
use lok_lingo.Jobs.Process.Answers.{Holds, Holds-map, IsAnswering}
use lok_lingo.Jobs.Process.Content.{IsTranslated, translate_pages-IsTranslated}

module _ (o : Outside) (ctx : o.rt.Ctx) where
  -- The units of a checkpoint are on the pages of the chunk that it is found for.
  abbrev pub HasAlignedCheckpoints : Type 0
  HasAlignedCheckpoints =
      (store : CheckpointStore o.rt.World)
      → o.checkpoints ≡ some store
      → (us out : List ChunkUnit) (id : JobId) (source target : Text) (w : o.rt.World)
      → (store.get_chunk_checkpoint id (chunk_checkpoint_key o ctx us source target) w).0
        ≡ ok (some out)
      → pages_of out ≡ pages_of us

  look_up_in-found :
      (store : CheckpointStore o.rt.World) (us out : List ChunkUnit) (s : Run o)
      → (look_up_in o ctx store us s).0 ≡ some out
      → (store.get_chunk_checkpoint s.job.id (key_of o ctx us s.job) s.inner.world).0
        ≡ ok (some out)
  unfolding look_up_in
  look_up_in-found store us out s k = ground (arith, k)

  -- A checkpoint that is found is what the store answers.
  found_in :
      (us out : List ChunkUnit) (s : Run o)
      → (look_up_checkpoint o ctx us s).0 ≡ some out
      → (store : CheckpointStore o.rt.World) × (o.checkpoints ≡ some store)
        × ((store.get_chunk_checkpoint s.job.id (key_of o ctx us s.job) s.inner.world).0
            ≡ ok (some out))
  unfolding look_up_checkpoint
  found_in us out s h = go (o.checkpoints) refl h
    where
      go :
          (c : Option (CheckpointStore o.rt.World))
          → o.checkpoints ≡ c
          → (elim c as (λ _. Option (List ChunkUnit) × Run o) [
            | none ↦ (none, s)
            | some store ↦ look_up_in o ctx store us s
          ]).0
            ≡ some out
          → (store : CheckpointStore o.rt.World) × (o.checkpoints ≡ some store)
            × ((store.get_chunk_checkpoint s.job.id (key_of o ctx us s.job) s.inner.world).0
                ≡ ok (some out))
      go none e k = absurd (cc)
      go (some store) e k = (store, e, look_up_in-found store us out s k)

  translated_aligned :
      (us out : List ChunkUnit) (a : Outcome (Result (List ChunkUnit)))
      → ReturnsAligned us a
      → a ≡ returns (ok out)
      → pages_of out ≡ pages_of us
  translated_aligned us out (returns (ok vs)) h e = ap pages_of (sym (returned vs out e)) ∙ h
    where
      returned :
          (vs ws : List ChunkUnit)
          → ◌≡◌ {A = Outcome (Result (List ChunkUnit))} (returns (ok vs)) (returns (ok ws))
          → vs ≡ ws
      returned vs ws e = cc
  translated_aligned us out (returns (err x)) h e = absurd (cc)
  translated_aligned us out panics h e = absurd (cc)
  translated_aligned us out runs_out h e = absurd (cc)

  aligned_chunk :
      (us out : List ChunkUnit) (source target : Text) (s : Retry.State o.rt)
      → (translate_chunk o.rt (length us) us ctx source target s).0 ≡ returns (ok out)
      → pages_of out ≡ pages_of us
  unfolding translate_chunk
  aligned_chunk [] out source target s e = absurd (cc)
  aligned_chunk (u ∷ us) out source target s e =
      translated_aligned (u ∷ us) out _
        (translate_chunk-ReturnsAligned o.rt (length (u ∷ us)) (u ∷ us) ctx source target s
          (omega arith) (omega arith))
        e

  -- Any service answers with units on the pages of the chunk.
  pub aligned_answer :
      HasAlignedCheckpoints → IsAnswering o ctx (λ us out. pages_of out ≡ pages_of us)
  aligned_answer h = record {
    same = λ us. refl;
    joined = λ us vs us' vs' p q.
        map-append (λ (u : ChunkUnit). u.page_index) us' vs'
        ∙ ap (λ l. l ++ pages_of vs') p
        ∙ ap (λ l. pages_of us ++ l) q
        ∙ sym (map-append (λ (u : ChunkUnit). u.page_index) us vs);
    translated = aligned_chunk;
    kept = λ us out s e.
        let (store, f, g) = found_in us out s e in
        h store f us out s.job.id s.job.source s.job.target s.inner.world g;
  }

  -- A service that fails at every call, without checkpoints, answers for the units as they are.
  own_answer : IsFailing o.rt → o.checkpoints ≡ none → IsAnswering o ctx (λ us out. out ≡ us)
  own_answer failing h = record {
    same = λ us. refl;
    joined = λ us vs us' vs' p q. ap (λ l. l ++ vs') p ∙ ap (λ l. us ++ l) q;
    translated = λ us out source target s e. absurd (
        subst HasNoAnswer e
          (translate_chunk-HasNoAnswer o.rt failing (length us) us ctx source target s));
    kept = λ us out s e.
        let (store, f, g) = found_in us out s e in absurd (none_ne_some store (sym h ∙ f));
  }
    where
      none_ne_some :
          (store : CheckpointStore o.rt.World)
          → ◌≡◌ {A = Option (CheckpointStore o.rt.World)} none (some store)
          → ⊥
      none_ne_some store e = cc

  module _ (w : Tuning) (positive : 0 < w.chunk_max_words) (concurrency : ℕ) (pages : List Text)
      (s : Run o) (uncached : GoError)
      (miss : (o.get_cached s.job.text s.job.source s.job.target s.inner.world).0
        ≡ err uncached) where
    -- A document that is not cached. Let a relation of units to units hold of any units and themselves, be kept when
    -- lists are joined, hold of the units of a chunk and every answer that the translation of the chunk or a
    -- checkpoint gives for it, and keep the page numbers. Then the job has failed, or its translated text has the
    -- words, all of them and in order, of units to which the units of the document stand in the relation; and those
    -- have the words of the pages.
    pub translate_document-IsTranslated :
        (R : List ChunkUnit → List ChunkUnit → Type 0)
        → IsAnswering o ctx R
        → ((us out : List ChunkUnit) → R us out → pages_of out ≡ pages_of us)
        → (units : List ChunkUnit) × (words_of (texts_of units) ≡ words_of pages)
          × (build_chunk_units pages w.chunk_max_words ≡ some units)
          × Holds
              (λ t. IsTranslated o ctx R units t.job)
              (translate_document o ctx w concurrency pages s)
    unfolding translate_document
    translate_document-IsTranslated R answers aligned =
        rw (miss, translate_document)
          (translate_pages-IsTranslated o ctx R answers aligned w concurrency pages _ positive)

    -- When every call of the service fails, and there are no checkpoints, a document that is not cached
    -- fails, or is completed with the words of its own pages, all of them and in order.
    pub translate_document-keeps_words :
        IsFailing o.rt
        → o.checkpoints ≡ none
        → Holds
            (λ t.
              (t.job.status ≡ failed)
              ⊎ ((t.job.status ≡ completed) × (fields t.job.translated_text ≡ words_of pages)))
            (translate_document o ctx w concurrency pages s)
    unfolding translate_document
    translate_document-keeps_words failing h =
        rw (miss, translate_document)
          (let (units, words, built, k) =
              translate_pages-IsTranslated o ctx (λ us out. out ≡ us) (own_answer failing h)
                (λ us out e. ap pages_of e) w concurrency pages _ positive in
            Holds-map {A = Run o} (λ t. IsTranslated o ctx (λ us out. out ≡ us) units t.job) _
              (translate_pages o ctx w concurrency pages _) k
              (λ t m. own_words units t.job words m))
      where
        own_words :
            (units : List ChunkUnit) (job : Job)
            → words_of (texts_of units) ≡ words_of pages
            → IsTranslated o ctx (λ us out. out ≡ us) units job
            → (job.status ≡ failed)
              ⊎ ((job.status ≡ completed) × (fields job.translated_text ≡ words_of pages))
        own_words units job words (inl e) = inl e
        own_words units job words (inr (out, e, done, k)) =
            inr (done, k ∙ ap (λ us. words_of (texts_of us)) e ∙ words)
