-- ===== src/Jobs/Process/Keeps.antt =====
-- What the loops over the chunks in Worker.process keep (backend/jobs/worker.go): an invariant of the job and
-- of the counts of units that are done, which the stages leave alone and a unit that is done keeps.
use lok_lingo.Prelude.{
  ℕ, zero, suc, ◌+◌, ◌≡◌, refl, ap, ◌∙◌, inl, inr, Bool, true, false, List, [], ◌∷◌, arith,
  Bool-cases, Option-cases, length, get_elem?, if◌then◌else◌,
}
use lok_lingo.Go.Failure.{Result, ok, err}
use lok_lingo.Jobs.Job.{Job, no_stage}
use lok_lingo.Jobs.Chunks.{ChunkUnit, TextChunk, is_nil, build_text_chunks}
use lok_lingo.Jobs.Translate.{Outcome, returns, panics, runs_out, translate_chunk}
use lok_lingo.Jobs.Process.State.{
  Outside, Run, Notice, chunk_started, chunk_completed, and_then, with_world, emit, notify_stage,
  notify_all, hear,
}
use lok_lingo.Jobs.Process.Document.Chunk.{
  PageResult, Progress, look_up_in, look_up_checkpoint, set_checkpoint, count_page, advance, settle,
  translate_anew, run_chunk, run_batch, increment, same_count, is_pdf,
}
use lok_lingo.Jobs.Process.Document.{translate_units, next_batch, left_over}

-- If the call returns, its answer has the property.
abbrev pub Leads : {A : Type 0} → (A → Type 0) → Outcome A → Type 0
Leads P (returns a) = P a
Leads P panics = Unit
Leads P runs_out = Unit

pub and_then-Leads :
    {A B : Type 0} (P : A → Type 0) (Q : B → Type 0) (a : Outcome A) (f : A → Outcome B)
    → Leads P a
    → ((x : A) → P x → Leads Q (f x))
    → Leads Q (and_then a f)
and_then-Leads P Q (returns x) f h k = k x h
and_then-Leads P Q panics f h k = tt
and_then-Leads P Q runs_out f h k = tt

pub Leads-map :
    {A : Type 0} (P Q : A → Type 0) (a : Outcome A) → ((x : A) → P x → Q x) → Leads P a → Leads Q a
Leads-map P Q (returns x) k h = k x h
Leads-map P Q panics k h = tt
Leads-map P Q runs_out k h = tt

-- As and_then-Leads, for a call whose answer is looked at before it is handed on.
pub answered-Leads :
    {A B : Type 0} (Q : B → Type 0) (a : Outcome A) (f : A → Outcome B)
    → ((x : A) → Leads Q (f x))
    → Leads Q (elim a [ returns x ↦ f x | panics ↦ panics | runs_out ↦ runs_out ])
answered-Leads Q (returns x) f k = k x
answered-Leads Q panics f k = tt
answered-Leads Q runs_out f k = tt

-- The job without its stage and the time of its last update.
abbrev pub frame_of : Job → Job
frame_of job = record job {
  updated_at = 0;
  stage = no_stage;
  stage_message = [];
  stage_progress = 0;
}

-- The job when a unit of page `i` is done, and `done` has it counted.
abbrev pub counted_in : List ℕ → List ℕ → ℕ → Job → Job
counted_in targets done i job =
    if same_count (get_elem? done i) (get_elem? targets i)
    then record job { processed_pages = job.processed_pages + 1 }
    else job

pub record Keeps (targets : List ℕ) (I : List ℕ → Job → Type 0) : Type 0 where
  pub frame : (done : List ℕ) (j k : Job) → frame_of j ≡ frame_of k → I done j → I done k
  pub count :
      (done : List ℕ) (j : Job) (i : ℕ)
      → is_pdf j.type ≡ true
      → I done j
      → I (increment i done) (counted_in targets (increment i done) i j)

module _ (o : Outside) (ctx : o.rt.Ctx) {targets : List ℕ} {I : List ℕ → Job → Type 0}
    (keeps : Keeps targets I) where
  abbrev Good : Progress o → Type 0
  Good d = I d.unit_done d.run.job

  notify_all-keeps :
      (done : List ℕ) (ns : List Notice) (s : Run o) → I done s.job → I done (notify_all o ns s).job
  unfolding notify_all notify_stage
  notify_all-keeps done [] s h = h
  notify_all-keeps done (n ∷ ns) s h =
      notify_all-keeps done ns (notify_stage o n s) (keeps.frame done s.job _ refl h)

  hear-keeps : (done : List ℕ) (s : Run o) → I done s.job → I done (hear o s).job
  unfolding hear
  hear-keeps done s h = notify_all-keeps done (o.notices s.inner.world).0 _ h

  look_up-job : (us : List ChunkUnit) (s : Run o) → (look_up_checkpoint o ctx us s).1.job ≡ s.job
  unfolding look_up_checkpoint look_up_in
  look_up-job us s = ground arith

  set_checkpoint-job :
      (us vs : List ChunkUnit) (s : Run o) → (set_checkpoint o ctx us vs s).job ≡ s.job
  unfolding set_checkpoint
  set_checkpoint-job us vs s = ground arith

  count_page-frame :
      (whole : Bool) (s : Run o)
      → frame_of
          (if whole then record (s.job) { processed_pages = s.job.processed_pages + 1 } else s.job)
        ≡ frame_of (count_page o ctx whole s).job
  count_page-frame true s = refl
  count_page-frame false s = refl

  count_page-type : (whole : Bool) (s : Run o) → (count_page o ctx whole s).job.type ≡ s.job.type
  count_page-type true s = refl
  count_page-type false s = refl

  advance-Good :
      (us : List ChunkUnit) (d : Progress o)
      → is_pdf d.run.job.type ≡ true
      → Good d
      → Good (advance o ctx targets us d)
  unfolding advance
  advance-Good [] d p h = h
  advance-Good (u ∷ us) d p h =
      let done = increment u.page_index d.unit_done in
      let whole = same_count (get_elem? done u.page_index) (get_elem? targets u.page_index) in
      advance-Good us (record { run = count_page o ctx whole d.run; unit_done = done })
        (ap is_pdf (count_page-type whole d.run) ∙ p)
        (keeps.frame done _ _ (count_page-frame whole d.run)
          (keeps.count d.unit_done d.run.job u.page_index p h))

  settle-Good :
      (us : List ChunkUnit) (dur : ℕ) (r : Result (List ChunkUnit)) (d : Progress o)
      → Good d
      → Good (settle o ctx targets us dur r d).1
  unfolding settle
  settle-Good us dur (err e) d h = h
  settle-Good us dur (ok out) d h = elim (Bool-cases (is_pdf d.run.job.type)) [
    | inl p ↦
        rw (p, set_checkpoint-job us out (advance o ctx targets out d).run) (advance-Good out d p h)
    | inr p ↦ rw (p, set_checkpoint-job us out d.run) h
  ]

  translate_anew-Good :
      (us : List ChunkUnit) (d : Progress o)
      → Good d
      → Leads (λ q. Good q.1) (translate_anew o ctx targets us d)
  unfolding translate_anew
  translate_anew-Good us d h = elim (Option-cases (o.take_slot ctx d.run.inner.world).0) [
    | inr (e, k) ↦ rw (k, translate_anew) h
    | inl k ↦
        let s1 = emit o chunk_started (with_world o (o.take_slot ctx d.run.inner.world).1 d.run) in
        let (answer, inner) =
          translate_chunk o.rt (length us) us ctx s1.job.source s1.job.target s1.inner in
        rw (k, translate_anew)
          (answered-Leads (λ (q : PageResult × Progress o). Good q.1) answer _
            (λ r.
              settle-Good us _ r _
                (hear-keeps d.unit_done (emit o chunk_completed (record s1 { inner = inner })) h)))
  ]

  run_chunk-Good :
      (us : List ChunkUnit) (d : Progress o)
      → Good d
      → Leads (λ q. Good q.1) (run_chunk o ctx targets us d)
  unfolding run_chunk
  run_chunk-Good us d h =
      let kept : I d.unit_done (look_up_checkpoint o ctx us d.run).1.job =
        rw (look_up-job us d.run) h in
      elim (Option-cases (look_up_checkpoint o ctx us d.run).0) [
        | inr (out, e) ↦ rw (e, run_chunk) kept
        | inl e ↦ rw (e, run_chunk) (translate_anew-Good us _ kept)
      ]

  run_batch-Good :
      (cs : List TextChunk) (d : Progress o)
      → Good d
      → Leads (λ q. Good q.1) (run_batch o ctx targets cs d)
  unfolding run_batch
  run_batch-Good [] d h = h
  run_batch-Good (c ∷ cs) d h =
      and_then-Leads (λ q. Good q.1) (λ q. Good q.1) _ _ (run_chunk-Good c.units d h)
        (λ q k.
          and_then-Leads (λ q. Good q.1) (λ q. Good q.1) _ _ (run_batch-Good cs q.1 k) (λ p m. m))

  pub translate_units-Good :
      (fuel concurrency : ℕ) (range : ℕ × ℕ) (us : List ChunkUnit) (d : Progress o)
      → Good d
      → Leads (λ q. Good q.1) (translate_units o ctx fuel concurrency targets range us d)
  unfolding translate_units
  translate_units-Good fuel c range [] d h = h
  translate_units-Good zero c range (u ∷ us) d h = tt
  translate_units-Good (suc fuel) c range (u ∷ us) d h =
      let batch = next_batch o ctx c (build_text_chunks (u ∷ us) range.0 range.1) in
      elim (Bool-cases (is_nil batch)) [
        | inl e ↦ rw (e, translate_units) h
        | inr e ↦
            rw (e, translate_units)
              (and_then-Leads (λ q. Good q.1) (λ q. Good q.1) _ _ (run_batch-Good batch d h)
                (λ q k.
                  and_then-Leads (λ q. Good q.1) (λ q. Good q.1) _ _
                    (translate_units-Good fuel c _ (left_over o ctx batch (u ∷ us)) q.1 k)
                    (λ p m. m)))
      ]
