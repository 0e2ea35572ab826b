-- ===== src/Jobs/Process/Frame/Whole.antt =====
-- What Worker.process leaves of a job as it was (backend/jobs/worker.go): what the job asks for.
use lok_lingo.Prelude.{◌<◌, ◌≡◌, refl, ap, ◌∙◌, true, List}
use lok_lingo.Jobs.Job.{Job, Status, pending, processing, completed, failed}
use lok_lingo.Jobs.Options.{Tuning}
use lok_lingo.Jobs.Translate.{Outcome, returns, panics, runs_out}
use lok_lingo.Jobs.Process.{process}
use lok_lingo.Jobs.Process.State.{Outside, Run, Event}
use lok_lingo.Jobs.Process.Answers.{Holds, Holds-map}
use lok_lingo.Jobs.Process.Ends.{has_ended, reports_end}
use lok_lingo.Jobs.Process.Ends.Whole.{process-reports}
use lok_lingo.Jobs.Process.Keeps.{Leads}
use lok_lingo.Jobs.Process.Frame.{request_of, without_pages, translate_document-Asks}
use lok_lingo.Jobs.Process.Frame.Pipeline.{KeepsJob, process-keeps}

-- What the job asks for is kept, whatever its pages.
pub asks-KeepsJob :
    (o : Outside) (ctx : o.rt.Ctx) (w : Tuning) (r : Job)
    → KeepsJob o ctx w (λ j. request_of j ≡ r) (λ pages j. request_of j ≡ r)
asks-KeepsJob o ctx w r = record {
  pages = record {
    same = λ j k e h. ap without_pages e ∙ h;
    recognised = λ pages j h. h;
    extracted = λ pages j h. h;
  };
  other = λ pages j p h. h;
  ready = λ pages j h. h;
  document = λ c pages s h. translate_document-Asks o r ctx w c pages s h;
}

pub Holds-Leads :
    {A : Type 0} (P Q : A → Type 0) (a : Outcome A)
    → Holds P a
    → Leads Q a
    → Holds (λ x. P x × Q x) a
Holds-Leads P Q (returns x) h k = (h, k)
Holds-Leads P Q panics h k = absurd h
Holds-Leads P Q runs_out h k = absurd h

-- For a positive maximum of words, whatever the outside answers, `process` returns with the job
-- completed or failed, and leaves what the job asks for as it was: its id, type, mode, languages, file,
-- options, attempts, and the times of its creation, its next retry and its death.
pub process-request_of :
    (o : Outside) (ctx : o.rt.Ctx) (w : Tuning) (s : Run o)
    → 0 < w.chunk_max_words
    → Holds
        (λ t. has_ended t.job.status ≡ true × request_of t.job ≡ request_of s.job)
        (process o ctx w s)
process-request_of o ctx w s h =
    Holds-Leads (λ t. has_ended t.job.status ≡ true) (λ t. request_of t.job ≡ request_of s.job)
      (process o ctx w s)
      (Holds-map _ _ (process o ctx w s) (process-reports o ctx w h s)
        (λ t e. reported t.job.status t.events e))
      (process-keeps o ctx w (asks-KeepsJob o ctx w (request_of s.job)) s refl)
  where
    reported : (st : Status) (es : List Event) → reports_end st es ≡ true → has_ended st ≡ true
    reported completed es e = refl
    reported failed es e = refl
    reported pending es e = absurd (cc)
    reported processing es e = absurd (cc)
