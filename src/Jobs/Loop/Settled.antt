-- ===== src/Jobs/Loop/Settled.antt =====
-- A round of Worker.Run with Worker.process in its place (backend/jobs/worker.go): the two meet in a world
-- from which the store's world can be taken, and into which it can be put.
use mathlib.Core.Path.{subst}
use lok_lingo.Prelude.{ℕ, ◌<◌, ◌≡◌, refl, ap, ◌⊎◌, inl, inr, true, []}
use lok_lingo.Go.Failure.{Result}
use lok_lingo.Jobs.Job.{JobId, Job, Status, pending, processing, completed, failed}
use lok_lingo.Jobs.Options.{Tuning}
use lok_lingo.Jobs.Redis.{Redis}
use lok_lingo.Jobs.Store.{World}
use lok_lingo.Jobs.Translate.{Outcome, returns, panics, runs_out}
use lok_lingo.Jobs.Failures.{is_failed}
use lok_lingo.Jobs.Loop.{work_on}
use lok_lingo.Jobs.Loop.Waiting.{IsWaiting, work_on-IsWaiting}
use lok_lingo.Jobs.Process.{process}
use lok_lingo.Jobs.Process.State.{Outside, Run}
use lok_lingo.Jobs.Process.Answers.{Holds}
use lok_lingo.Jobs.Process.Ends.{has_ended}
use lok_lingo.Jobs.Process.Frame.{request_of}
use lok_lingo.Jobs.Process.Frame.Whole.{process-request_of}

module _ (r : Redis) (o : Outside) (ctx : o.rt.Ctx) (tuning : Tuning) (into : World r → o.rt.World)
    (out : o.rt.World → World r) where
  -- What process starts with: no retry is counted yet.
  abbrev pub fresh : Job → World r → Run o
  fresh job w = record {
    job = job;
    inner = record {
      world = into w;
      metrics = record { translate_retry_count = 0; timeout_retry_count = 0; split_count = 0 };
    };
    events = [];
  }

  abbrev pub left_by : Job → World r → Outcome (Run o) → Job × World r
  left_by job w (returns t) = (t.job, out t.inner.world)
  left_by job w panics = (job, w)
  left_by job w runs_out = (job, w)

  -- process as the loop calls it.
  unfoldable pub processed : Job → World r → Job × World r
  processed job w = left_by job w (process o ctx tuning (fresh job w))

  processed-request_of :
      (job : Job) (w : World r)
      → 0 < tuning.chunk_max_words
      → has_ended (processed job w).0.status ≡ true
        × request_of (processed job w).0 ≡ request_of job
  unfolding processed
  processed-request_of job w h =
      go (process o ctx tuning (fresh job w)) (process-request_of o ctx tuning (fresh job w) h)
    where
      go :
          (a : Outcome (Run o))
          → Holds (λ t. has_ended t.job.status ≡ true × request_of t.job ≡ request_of job) a
          → let p = left_by job w a in has_ended p.0.status ≡ true × request_of p.0 ≡ request_of job
      go (returns t) k = k
      go panics k = absurd k
      go runs_out k = absurd k

  ended_cases : (st : Status) → has_ended st ≡ true → (st ≡ completed) ⊎ (st ≡ failed)
  ended_cases completed e = inl refl
  ended_cases failed e = inr refl
  ended_cases pending e = absurd (cc)
  ended_cases processing e = absurd (cc)

  -- A job that the worker takes is settled by its round, under the id that it has. For a positive maximum of words,
  -- whatever the outside answers to process: the job is completed; or, when every round trip to the store after
  -- process is answered, and clearing checkpoints leaves the queues alone, it is queued, waits for its retry, or
  -- is a dead letter, and has a payload.
  pub work_on-settles :
      (jitter : ℕ → ℕ) (clear_chunk_checkpoints : JobId → World r → Result (Unit {0}) × World r)
      (clears : (id : JobId) (w : World r)
        → r.view (clear_chunk_checkpoints id w).1.db ≡ r.view w.db)
      (job : Job) (w : World r)
      → 0 < tuning.chunk_max_words
      → (processed job w).1.trips ≡ []
      → ((processed job w).0.id ≡ job.id)
        × (((processed job w).0.status ≡ completed)
            ⊎ IsWaiting job.id
                (r.view (work_on r jitter processed clear_chunk_checkpoints job w).db))
  work_on-settles jitter clear clears job w h calm =
      let (ended, same) = processed-request_of job w h in
      let id : (processed job w).0.id ≡ job.id = ap (λ (j : Job). j.id) same in
      (
        id,
        elim (ended_cases (processed job w).0.status ended) [
          | inl e ↦ inl e
          | inr e ↦ inr (
              subst (λ x. IsWaiting x (r.view (work_on r jitter processed clear job w).db)) id
                (work_on-IsWaiting r jitter processed clear clears job w (ap is_failed e) calm))
        ],
      )
