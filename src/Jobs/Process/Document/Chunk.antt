-- ===== src/Jobs/Process/Document/Chunk.antt =====
-- The work of a goroutine of Worker.process, which is one chunk of a document, and a batch of them
-- (backend/jobs/worker.go).
use lok_lingo.Prelude.{
  ℕ, zero, suc, ◌+◌, ◌-◌, Bool, true, false, List, [], ◌∷◌, ◌++◌, map, Option, none, some, ◌==◌,
  if◌then◌else◌, length, get_elem?,
}
use lok_lingo.Go.Text.{Text}
use lok_lingo.Go.Failure.{GoError, Result, ok, err}
use lok_lingo.Go.Number.{decimal}
use lok_lingo.Jobs.Job.{Job, JobType, pdf_job}
use lok_lingo.Jobs.Chunks.{ChunkUnit, TextChunk}
use lok_lingo.Jobs.Translate.{translate_chunk, Outcome, returns, panics, runs_out}
use lok_lingo.Jobs.Process.State.{
  Outside, Run, CheckpointStore, chunk_started, chunk_completed, inc_chunk_checkpoint_hit,
  inc_chunk_checkpoint_miss, inc_chunk_checkpoint_persist_failure, and_then, with_job, with_world,
  emit, save, hear,
}

-- What became of a chunk: its units, which are those that were given if there is an error, and how long
-- the call took, in milliseconds.
pub record PageResult : Type 0 where
  pub units : List ChunkUnit
  pub error : Option GoError
  pub dur : ℕ

abbrev pub result_units : PageResult → List ChunkUnit
result_units r = r.units

abbrev pub is_pdf : JobType → Bool
is_pdf pdf_job = true
is_pdf _ = false

-- How often each page number occurs: the number of the units of each page.
abbrev pub increment : ℕ → List ℕ → List ℕ
increment i [] = []
increment zero (n ∷ ns) = (n + 1) ∷ ns
increment (suc i) (n ∷ ns) = n ∷ increment i ns

unfoldable pub count_units : List ChunkUnit → List ℕ → List ℕ
count_units [] counts = counts
count_units (u ∷ us) counts = count_units us (increment u.page_index counts)

abbrev pub zeros {ℓ} : {A : Type ℓ} → List A → List ℕ
zeros = map (λ _. 0)

abbrev pub same_count : Option ℕ → Option ℕ → Bool
same_count (some a) (some b) = a == b
same_count _ _ = false

-- What chunkCheckpointKey hashes of the units.
abbrev pub key_parts : List ChunkUnit → Text
key_parts [] = []
key_parts (u ∷ us) = 0 ∷ decimal u.page_index ++ (0 ∷ u.text ++ key_parts us)

-- The job's run, and the units of each page that are translated.
pub record Progress (o : Outside) : Type 0 where
  pub run : Run o
  pub unit_done : List ℕ

module _ (o : Outside) (ctx : o.rt.Ctx) where
  unfoldable pub chunk_checkpoint_key : List ChunkUnit → Text → Text → Text
  chunk_checkpoint_key us source target = o.sha256_hex (source ++ (0 ∷ target ++ key_parts us))

  abbrev pub key_of : List ChunkUnit → Job → Text
  key_of us job = chunk_checkpoint_key us job.source job.target

  abbrev pub on_run : (Run o → Run o) → Progress o → Progress o
  on_run f d = record d { run = f d.run }

  -- The checkpoint of a chunk; a store that fails to look it up has none.
  unfoldable pub look_up_in :
      CheckpointStore o.rt.World → List ChunkUnit → Run o → Option (List ChunkUnit) × Run o
  look_up_in store us s =
      let (r, w) = store.get_chunk_checkpoint s.job.id (key_of us s.job) s.inner.world in
      elim r [
        | err e ↦ (none, with_world o w s)
        | ok found ↦ elim found [
          | some units ↦ (some units, emit o inc_chunk_checkpoint_hit (with_world o w s))
          | none ↦ (none, emit o inc_chunk_checkpoint_miss (with_world o w s))
        ]
      ]

  unfoldable pub look_up_checkpoint : List ChunkUnit → Run o → Option (List ChunkUnit) × Run o
  look_up_checkpoint us s = elim (o.checkpoints) [
    | none ↦ (none, s)
    | some store ↦ look_up_in store us s
  ]

  unfoldable pub set_checkpoint : List ChunkUnit → List ChunkUnit → Run o → Run o
  set_checkpoint us translated s = elim (o.checkpoints) [
    | none ↦ s
    | some store ↦
        let (r, w) =
          store.set_chunk_checkpoint s.job.id (key_of us s.job) translated s.inner.world in
        elim r [
          | ok _ ↦ with_world o w s
          | err e ↦ emit o inc_chunk_checkpoint_persist_failure (with_world o w s)
        ]
  ]

  -- A page whose last unit is done is counted in the job, which is stored.
  abbrev pub count_page : Bool → Run o → Run o
  count_page whole s =
      if whole
      then save o (with_job o (λ j. record j { processed_pages = j.processed_pages + 1 }) s)
      else s

  unfoldable pub advance : List ℕ → List ChunkUnit → Progress o → Progress o
  advance targets [] d = d
  advance targets (u ∷ us) d =
      let done = increment u.page_index d.unit_done in
      advance targets us (record {
        run =
            count_page (same_count (get_elem? done u.page_index) (get_elem? targets u.page_index))
              d.run;
        unit_done = done;
      })

  -- What is done with the answer for a chunk.
  unfoldable pub settle :
      List ℕ → List ChunkUnit → ℕ → Result (List ChunkUnit) → Progress o → PageResult × Progress o
  settle targets us dur (err e) d = (record { units = us; error = some e; dur = dur }, d)
  settle targets us dur (ok translated) d =
      let d1 = if is_pdf d.run.job.type then advance targets translated d else d in
      (
        record { units = translated; error = none; dur = dur },
        on_run (set_checkpoint us translated) d1,
      )

  abbrev pub free_slot_of : PageResult × Progress o → PageResult × Progress o
  free_slot_of (r, d) = (r, on_run (λ s. with_world o (o.free_slot s.inner.world) s) d)

  -- A chunk that has no checkpoint.
  unfoldable pub translate_anew :
      List ℕ → List ChunkUnit → Progress o → Outcome (PageResult × Progress o)
  translate_anew targets us d =
      let s = d.run in
      let (refused, w) = o.take_slot ctx s.inner.world in
      elim refused [
        | some e ↦
            returns
              (record { units = us; error = some e; dur = 0 }, record d { run = with_world o w s })
        | none ↦
            let s1 = emit o chunk_started (with_world o w s) in
            let (answer, inner) =
              translate_chunk o.rt (length us) us ctx s.job.source s.job.target s1.inner in
            let s2 = hear o (emit o chunk_completed (record s1 { inner = inner })) in
            let dur = o.now inner.world - o.now w in
            elim answer [
              | returns r ↦ returns (free_slot_of (settle targets us dur r (record d { run = s2 })))
              | panics ↦ panics
              | runs_out ↦ runs_out
            ]
      ]

  -- The work of one goroutine.
  unfoldable pub run_chunk :
      List ℕ → List ChunkUnit → Progress o → Outcome (PageResult × Progress o)
  run_chunk targets us d =
      let (found, s) = look_up_checkpoint us d.run in
      elim found [
        | some units ↦
            returns (record { units = units; error = none; dur = 0 }, record d { run = s })
        | none ↦ translate_anew targets us (record d { run = s })
      ]

  unfoldable pub run_batch :
      List ℕ → List TextChunk → Progress o → Outcome (List PageResult × Progress o)
  run_batch targets [] d = returns ([], d)
  run_batch targets (c ∷ cs) d =
      and_then (run_chunk targets c.units d)
        (λ q. and_then (run_batch targets cs q.1) (λ p. returns (q.0 ∷ p.0, p.1)))
