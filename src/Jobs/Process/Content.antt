-- ===== src/Jobs/Process/Content.antt =====
-- What the translated text of a document is made of (Worker.process in backend/jobs/worker.go).
use mathlib.Core.Path.{subst}
use mathlib.Core.List.{map-append}
use lok_lingo.Prelude.{
  ℕ, suc, ◌+◌, ◌≤◌, ◌<◌, ◌≡◌, refl, sym, ap, ◌∙◌, ◌⊎◌, inl, inr, Bool, List, [], ◌∷◌, ◌++◌, map,
  All, Option, none, some, concat, arith, Bool-cases, Option-cases, length,
}
use lok_lingo.Go.Text.{Text, fields}
use lok_lingo.Go.Failure.{GoError}
use lok_lingo.Go.Spaces.{words_of, words_of-append}
use lok_lingo.Jobs.Job.{Job, completed, failed}
use lok_lingo.Jobs.Options.{Tuning}
use lok_lingo.Jobs.Chunks.{ChunkUnit, build_chunk_units}
use lok_lingo.Jobs.Chunks.Budget.{IsDocument, build_chunk_units-IsDocument}
use lok_lingo.Jobs.Translate.{texts_of}
use lok_lingo.Jobs.Translate.Retry.{is_done}
use lok_lingo.Jobs.Translate.Alignment.{pages_of}
use lok_lingo.Jobs.Process.State.{Outside, Run, emit, inc_degraded_mode}
use lok_lingo.Jobs.Process.Document.Chunk.{PageResult, result_units, Progress}
use lok_lingo.Jobs.Process.Document.{
  add_parts, gather, is_unrecoverable, conclude, conclude_results, translate_pages,
}
use lok_lingo.Jobs.Process.Answers.{Holds, and_then-Holds, IsAnswering}
use lok_lingo.Jobs.Process.Batches.{AllDone, translate_units-AllDone}
use lok_lingo.Jobs.Process.Pages.{Ascends, page_words, page_words_from_nothing, fields-pages}

Ascends-append :
    (lo n p : ℕ) (is js : List ℕ)
    → lo ≤ p
    → p < n
    → All (λ i. i ≡ p) is
    → Ascends p n js
    → Ascends lo n (is ++ js)
Ascends-append lo n p [] js h k a b = lower lo p js h b
  where
    lower : (lo p : ℕ) (js : List ℕ) → lo ≤ p → Ascends p n js → Ascends lo n js
    lower lo p [] h b = tt
    lower lo p (j ∷ js) h b = (omega (arith, b.0), b.1, b.2)
Ascends-append lo n p (i ∷ is) js h k a b = (
  omega (arith, a.0),
  omega (arith, a.0),
  Ascends-append i n p is js (omega (arith, a.0)) k a.1 b,
)

page_numbers :
    (m page : ℕ) (us : List ChunkUnit)
    → All
        (λ u.
          (u.page_index ≡ page)
          × (u.words ≡ length (fields u.text))
          × (0 < u.words)
          × (u.words ≤ m))
        us
    → All (λ i. i ≡ page) (pages_of us)
page_numbers m page [] a = tt
page_numbers m page (u ∷ us) a = (a.0.0, page_numbers m page us a.1)

-- The units of a document go through its pages in order.
IsDocument-Ascends :
    (m page n : ℕ) (pages : List Text) (blocks : List (List ChunkUnit))
    → IsDocument m page pages blocks
    → page + length pages ≤ n
    → Ascends page n (pages_of (concat blocks))
IsDocument-Ascends m page n [] [] d h = tt
IsDocument-Ascends m page n [] (b ∷ bs) d h = absurd d
IsDocument-Ascends m page n (p ∷ ps) [] d h = absurd d
IsDocument-Ascends m page n (p ∷ ps) (b ∷ bs) d h =
    subst (Ascends page n) (sym (map-append (λ (u : ChunkUnit). u.page_index) b (concat bs))) (
      Ascends-append page n page (pages_of b) (pages_of (concat bs)) (omega arith) (omega arith)
        (page_numbers m page b d.0.sized)
        (lower page (pages_of (concat bs))
          (IsDocument-Ascends m (suc page) n ps bs d.1 (omega arith))))
  where
    lower : (q : ℕ) (js : List ℕ) → Ascends (suc q) n js → Ascends q n js
    lower q [] b = tt
    lower q (j ∷ js) b = (omega (arith, b.0), b.1, b.2)

texts_words :
    (us : List ChunkUnit)
    → concat (map (λ (u : ChunkUnit). fields u.text) us) ≡ words_of (texts_of us)
unfolding words_of
texts_words [] = refl
texts_words (u ∷ us) = ap (λ r. fields u.text ++ r) (texts_words us)

-- The units of a document have its words, in order.
pub IsDocument-words :
    (m page : ℕ) (pages : List Text) (blocks : List (List ChunkUnit))
    → IsDocument m page pages blocks
    → words_of (texts_of (concat blocks)) ≡ words_of pages
unfolding words_of
IsDocument-words m page [] [] d = refl
IsDocument-words m page [] (b ∷ bs) d = absurd d
IsDocument-words m page (p ∷ ps) [] d = absurd d
IsDocument-words m page (p ∷ ps) (b ∷ bs) d =
    ap words_of (map-append (λ (u : ChunkUnit). u.text) b (concat bs))
    ∙ words_of-append (texts_of b) (texts_of (concat bs))
    ∙ ap (λ r. r ++ words_of (texts_of (concat bs))) (sym (texts_words b) ∙ d.0.kept)
    ∙ ap (λ r. fields p ++ r) (IsDocument-words m (suc page) ps bs d.1)

add_parts-append :
    (us vs : List ChunkUnit) (pss : List (List Text))
    → add_parts (us ++ vs) pss ≡ add_parts vs (add_parts us pss)
unfolding add_parts
add_parts-append [] vs pss = refl
add_parts-append (u ∷ us) vs pss = add_parts-append us vs _

module _ (o : Outside) (ctx : o.rt.Ctx) where
  -- Gathering ends with an error, or it went through the units of all results.
  gather-all :
      (done : Bool) (rs : List PageResult) (parts : List (List Text)) (n : ℕ) (s : Run o)
      → let t = (gather o ctx done rs parts n s).0 in
        ((e : GoError) × (t.0 ≡ some e))
        ⊎ ((t.0 ≡ none) × (t.1 ≡ add_parts (concat (map result_units rs)) parts))
  unfolding gather add_parts
  gather-all done [] parts n s = inr (refl, refl)
  gather-all done (r ∷ rs) parts n s = elim (Option-cases (r.error)) [
    | inl e ↦
        rw (e, gather)
          (through r.units (gather o ctx done rs (add_parts r.units parts) n s).0
            (gather-all done rs (add_parts r.units parts) n s))
    | inr (x, e) ↦ elim (Bool-cases (is_unrecoverable o ctx done x)) [
      | inl f ↦ rw (e, gather) (rw f (inl (x, refl)))
      | inr f ↦
          let s' = emit o inc_degraded_mode s in
          rw (e, gather)
            (rw f (
              through r.units (gather o ctx done rs (add_parts r.units parts) (n + 1) s').0
                (gather-all done rs (add_parts r.units parts) (n + 1) s')))
    ]
  ]
    where
      through :
          (us : List ChunkUnit) (t : Option GoError × List (List Text) × ℕ)
          → ((e : GoError) × (t.0 ≡ some e))
            ⊎ ((t.0 ≡ none) × (t.1 ≡ add_parts (concat (map result_units rs)) (add_parts us parts)))
          → ((e : GoError) × (t.0 ≡ some e))
            ⊎ ((t.0 ≡ none) × (t.1 ≡ add_parts (us ++ concat (map result_units rs)) parts))
      through us t (inl e) = inl e
      through us t (inr (e, f)) =
          inr (e, f ∙ sym (add_parts-append us (concat (map result_units rs)) parts))

  -- The job has failed, or its text has the words of units that stand for its own.
  abbrev pub IsTranslated :
      (List ChunkUnit → List ChunkUnit → Type 0) → List ChunkUnit → Job → Type 0
  IsTranslated R units job =
      (job.status ≡ failed)
      ⊎ ((out : List ChunkUnit) × R units out
          × (job.status ≡ completed)
          × (fields job.translated_text ≡ words_of (texts_of out)))

  conclude-IsTranslated :
      (R : List ChunkUnit → List ChunkUnit → Type 0) (units out : List ChunkUnit)
      (pages : List Text) (t : Option GoError × List (List Text) × ℕ) (s : Run o)
      → R units out
      → Ascends 0 (length pages) (pages_of out)
      → ((e : GoError) × (t.0 ≡ some e))
        ⊎ ((t.0 ≡ none) × (t.1 ≡ add_parts out (map (λ _. []) pages)))
      → IsTranslated R units (conclude o ctx t s).job
  unfolding conclude
  conclude-IsTranslated R units out pages (some x, parts, n) s h a q = inl refl
  conclude-IsTranslated R units out pages (none, parts, n) s h a (inl (e, f)) = absurd (cc)
  conclude-IsTranslated R units out pages (none, parts, n) s h a (inr (e, f)) =
      inr (out, h, refl, fields-pages parts ∙ ap page_words f ∙ page_words_from_nothing out pages a)

  module _ (R : List ChunkUnit → List ChunkUnit → Type 0) (a : IsAnswering o ctx R)
      (aligned : (us out : List ChunkUnit) → R us out → pages_of out ≡ pages_of us) where
    conclude_results-IsTranslated :
        (pages : List Text) (units : List ChunkUnit) (q : List PageResult × Progress o)
        → Ascends 0 (length pages) (pages_of units)
        → AllDone o ctx R a units q
        → IsTranslated R units (conclude_results o ctx pages q).job
    conclude_results-IsTranslated pages units (rs, d) b h =
        conclude-IsTranslated R units (concat (map result_units rs)) pages _ _ h
          (subst (Ascends 0 (length pages)) (sym (aligned units (concat (map result_units rs)) h))
            b)
          (gather-all (is_done o.rt ctx d.run.inner.world) rs (map (λ _. []) pages) 0 d.run)

    -- A document whose text is not cached: for any relation that an outside answers for and that keeps the
    -- page numbers, the job has failed, or its translated text has the words of units that stand in the
    -- relation to the document's units, each once and in their order.
    pub translate_pages-IsTranslated :
        (w : Tuning) (concurrency : ℕ) (pages : List Text) (s : Run o)
        → 0 < w.chunk_max_words
        → (units : List ChunkUnit) × (words_of (texts_of units) ≡ words_of pages)
          × (build_chunk_units pages w.chunk_max_words ≡ some units)
          × Holds (λ t. IsTranslated R units t.job) (translate_pages o ctx w concurrency pages s)
    unfolding translate_pages
    translate_pages-IsTranslated w concurrency pages s h =
        let (blocks, e, d) = build_chunk_units-IsDocument pages w.chunk_max_words h in
        let units = concat blocks in
        (
          units,
          IsDocument-words w.chunk_max_words 0 pages blocks d,
          e,
          rw (e, translate_pages)
              (and_then-Holds (AllDone o ctx R a units) (λ t. IsTranslated R units t.job) _ _
                (translate_units-AllDone o ctx R a (length units) concurrency _ _ units _
                  (omega arith))
                (λ q k.
                  conclude_results-IsTranslated pages units q
                    (IsDocument-Ascends w.chunk_max_words 0 (length pages) pages blocks d
                      (omega arith))
                    k)),
        )
