-- ===== src/Jobs/Failures/Rescheduled.antt =====
-- When a job that failed is tried again, and when that is (handleFailedJob in backend/jobs/worker.go).
use mathlib.Core.Path.{subst}
use lok_lingo.Prelude.{
  ℕ, zero, suc, ◌+◌, ◌-◌, ◌*◌, ◌/◌, ◌^◌, ◌≤◌, ◌<◌, ◌≡◌, refl, sym, ap, ◌∙◌, ◌⊎◌, ◌↔◌, inl, inr,
  Bool, true, false, Option, some, min, ltb, ltb→lt, ◌&&◌, arith, Bool-cases, if◌then◌else◌,
}
use lok_lingo.Prelude.Int.{ℤ, pos, negsuc}
use lok_lingo.Go.Failure.{Result, ok}
use lok_lingo.Jobs.Job.{JobId, Job, QueueStats, pending, failed}
use lok_lingo.Jobs.Failures.{
  StoreApi, classify_job_error, at_least_one, effective_max, failure_reason, will_retry,
  retry_delay_for_attempt, is_overload, retry_delay, is_queue_overloaded, schedule_retry, bury,
  handle_failed_job,
}
use lok_lingo.Jobs.Failures.Delay.{retry_delay_for_attempt_bounds}
use lok_lingo.Jobs.Failures.Verdict.{schedule_retry_lem, bury-failed}

-- The number of attempts that a job has: its own limit, or three if that is not positive.
pub record IsAttemptLimit (max_attempts : ℤ) (m : ℕ) : Type 0 where
  pub positive : (n : ℕ) → max_attempts ≡ pos (suc n) → m ≡ suc n
  pub at_zero : max_attempts ≡ pos 0 → m ≡ 3
  pub negative : (n : ℕ) → max_attempts ≡ negsuc n → m ≡ 3

-- The queue is overloaded.
abbrev pub IsBusy : QueueStats → Type 0
IsBusy stats = (200 ≤ stats.queue_depth) ⊎ (120 ≤ stats.retry_backlog) ⊎ (20 ≤ stats.stuck_jobs)

-- The error can pass, and the next attempt is below the limit, which an overload lowers by one if it is above one.
abbrev pub CanRetry : QueueStats → ℕ → Job → Type 0
CanRetry stats m job =
    ((classify_job_error (failure_reason job)).1 ≡ true)
    × (job.attempt + 1 < m)
    × (IsBusy stats → 1 < m → job.attempt + 2 < m)

-- The time of the next attempt lies in this range.
abbrev pub IsBetween : ℕ → ℕ → Option ℕ → Type 0
IsBetween first last next = (t : ℕ) × (next ≡ some t) × (first ≤ t) × (t ≤ last)

-- Two seconds, doubled with every attempt that there was, up to a minute.
abbrev pub wait_after : ℕ → ℕ
wait_after attempt = min (2_000_000_000 * 2 ^ attempt) 60_000_000_000

-- How the job is left, at a time, by the load of the queue and the limit on the attempts.
pub record IsRescheduled (stats : QueueStats) (m now : ℕ) (job job' : Job) : Type 0 where
  pub again : (job'.status ≡ pending) ↔ CanRetry stats m job
  pub quiet :
      job'.status ≡ pending
      → ¬ IsBusy stats
      → IsBetween
          (now + wait_after job.attempt)
          (now + wait_after job.attempt + wait_after job.attempt / 4)
          job'.next_retry_at
  pub busy :
      job'.status ≡ pending
      → IsBusy stats
      → IsBetween
          (now + wait_after job.attempt + 3_000_000_000)
          (now + wait_after job.attempt + wait_after job.attempt / 4 + 3_000_000_000)
          job'.next_retry_at

at_least_one-IsAttemptLimit : (z : ℤ) (m : ℕ) → IsAttemptLimit z m → at_least_one z ≡ m
at_least_one-IsAttemptLimit (pos zero) m h = ground (arith, h.at_zero refl)
at_least_one-IsAttemptLimit (pos (suc n)) m h = ground (arith, h.positive n refl)
at_least_one-IsAttemptLimit (negsuc n) m h = ground (arith, h.negative n refl)

is_overload-IsBusy : (stats : QueueStats) → (is_overload stats ≡ true) ↔ IsBusy stats
is_overload-IsBusy stats = (λ e. ground (arith, e), λ h. ground (arith, h))

below_limit :
    (c b : Bool) (attempt m : ℕ)
    → ((c && ltb (attempt + 1) (effective_max m b)) ≡ true)
      ↔ ((c ≡ true) × (attempt + 1 < m) × (b ≡ true → 1 < m → attempt + 2 < m))
below_limit true true attempt m = (
  λ e. ground (arith, e),
  λ h. elim (Bool-cases (ltb 1 m)) [
    | inl e ↦ ground (arith, e, h.1, h.2 refl (ltb→lt 1 m e))
    | inr e ↦ ground (arith, e, h.1)
  ],
)
below_limit true false attempt m = (λ e. ground (arith, e), λ h. ground (arith, h.1))
below_limit false b attempt m = (λ e. absurd (cc), λ h. absurd (cc))

will_retry-CanRetry :
    (stats : QueueStats) (m : ℕ) (job : Job)
    → IsAttemptLimit job.max_attempts m
    → (will_retry job (is_overload stats) ≡ true) ↔ CanRetry stats m job
will_retry-CanRetry stats m job h =
    let c = (classify_job_error (failure_reason job)).1 in
    let (to, from) = below_limit c (is_overload stats) job.attempt m in
    let busy = is_overload-IsBusy stats in
    let limit = at_least_one-IsAttemptLimit job.max_attempts m h in
    let same : will_retry job (is_overload stats)
        ≡ (c && ltb (job.attempt + 1) (effective_max m (is_overload stats))) =
      ap (λ n. c && ltb (job.attempt + 1) (effective_max n (is_overload stats))) limit in
    (
      λ e. let (x, y, z) = to (sym same ∙ e) in (x, y, λ b. z (busy.1 b)),
      λ k. same ∙ from (k.0, k.1, λ e. k.2 (busy.0 e)),
    )

module _ (api : StoreApi) (jitter : ℕ → ℕ) (quarter : (d : ℕ) → jitter d ≤ d / 4)
    (put_back : JobId → ℕ → api.World → Result (Unit {0}) × api.World)
    (has_requeue : api.requeue ≡ some put_back)
    (updates : (job : Job) (w : api.World) → (api.update job w).1 ≡ ok tt)
    (requeues : (id : JobId) (delay : ℕ) (w : api.World) → (put_back id delay w).0 ≡ ok tt)
    (stats_of : api.World → Result QueueStats × api.World)
    (has_stats : api.queue_stats ≡ some stats_of) where
  overloaded_by :
      (w : api.World) (stats : QueueStats)
      → (stats_of w).0 ≡ ok stats
      → is_queue_overloaded api jitter w ≡ (is_overload stats, (stats_of w).1)
  unfolding is_queue_overloaded
  overloaded_by w stats e = rw (has_stats, is_queue_overloaded) (rw e refl)

  wait_after_bounds :
      (attempt : ℕ)
      → (wait_after attempt ≤ retry_delay_for_attempt jitter (attempt + 1))
        × (retry_delay_for_attempt jitter (attempt + 1)
            ≤ wait_after attempt + wait_after attempt / 4)
  wait_after_bounds attempt =
      let (a, b, c, d) = retry_delay_for_attempt_bounds jitter (attempt + 1) quarter in
      let delay = retry_delay_for_attempt jitter (attempt + 1) in
      subst (λ k. (wait_after k ≤ delay) × (delay ≤ wait_after k + wait_after k / 4))
        (one_less attempt) (a, b)
    where
      one_less : (n : ℕ) → n + 1 - 1 ≡ n
      one_less n = omega arith

  in_time :
      (job : Job) (now : ℕ) (b : Bool)
      → let t = now + retry_delay jitter job b in
        let more : ℕ = if b then 3_000_000_000 else 0 in
        (now + wait_after job.attempt + more ≤ t)
        × (t ≤ now + wait_after job.attempt + wait_after job.attempt / 4 + more)
  in_time job now true =
      let (a, b) = wait_after_bounds job.attempt in (omega (arith, a), omega (arith, b))
  in_time job now false =
      let (a, b) = wait_after_bounds job.attempt in (omega (arith, a), omega (arith, b))

  retried :
      (job job' : Job) (stats : QueueStats) (m now : ℕ)
      → IsAttemptLimit job.max_attempts m
      → will_retry job (is_overload stats) ≡ true
      → job'.status ≡ pending
      → job'.next_retry_at ≡ some (now + retry_delay jitter job (is_overload stats))
      → IsRescheduled stats m now job job'
  retried job job' stats m now h r p n =
      let busy = is_overload-IsBusy stats in
      let t = in_time job now (is_overload stats) in
      record {
        again = (λ _. (will_retry-CanRetry stats m job h).0 r, λ _. p);
        quiet = λ _ calm. elim (Bool-cases (is_overload stats)) [
          | inl e ↦ absurd (calm (busy.0 e))
          | inr e ↦ (_, n, ground (arith, e, t.0), ground (arith, e, t.1))
        ];
        busy = λ _ b. let e = busy.1 b in (_, n, ground (arith, e, t.0), ground (arith, e, t.1));
      }

  buried :
      (job job' : Job) (stats : QueueStats) (m now : ℕ)
      → IsAttemptLimit job.max_attempts m
      → will_retry job (is_overload stats) ≡ false
      → job'.status ≡ failed
      → IsRescheduled stats m now job job'
  buried job job' stats m now h r p = record {
    again = (λ e. absurd (cc), λ k. absurd (let e = (will_retry-CanRetry stats m job h).1 k in cc));
    quiet = λ e _. absurd (cc);
    busy = λ e _. absurd (cc);
  }

  judged :
      (job : Job) (w : api.World) (b : Bool) (w1 : api.World)
      → is_queue_overloaded api jitter w ≡ (b, w1)
      → (handle_failed_job api jitter job w).0
        ≡ (if will_retry job b
            then schedule_retry api jitter job b w1
            else bury api jitter job w1).0
  unfolding handle_failed_job
  judged job w b w1 e =
      ap
        (λ (q : Bool × api.World).
          (if will_retry job q.0
            then schedule_retry api jitter job q.0 q.1
            else bury api jitter job q.1).0)
        e

  -- With a store that tells its load and takes updates and requeues, and a random part of at most a quarter: the job
  -- is left pending exactly if its error can pass and its next attempt is below its limit, or three if that is not
  -- positive, which an overload lowers by one if it is above one. Then its next attempt is two seconds from
  -- now, doubled with every attempt that there was, up to a minute, with at most a quarter more; and with
  -- three more seconds under an overload.
  pub handle_failed_job-IsRescheduled :
      (job : Job) (w : api.World) (stats : QueueStats) (m : ℕ)
      → (stats_of w).0 ≡ ok stats
      → IsAttemptLimit job.max_attempts m
      → IsRescheduled stats m (api.now (stats_of w).1) job (handle_failed_job api jitter job w).0
  handle_failed_job-IsRescheduled job w stats m e h =
      let b = is_overload stats in
      let w1 = (stats_of w).1 in
      let same = judged job w b w1 (overloaded_by w stats e) in
      elim (Bool-cases (will_retry job b)) [
        | inl r ↦
            let scheduled : (handle_failed_job api jitter job w).0
                ≡ (schedule_retry api jitter job b w1).0 =
              same ∙ rw r refl in
            let left =
              scheduled
              ∙ schedule_retry_lem api jitter put_back has_requeue updates requeues job b w1 in
            retried job _ stats m (api.now w1) h r (ap (λ (j : Job). j.status) left)
              (ap (λ (j : Job). j.next_retry_at) left)
        | inr r ↦
            let left : (handle_failed_job api jitter job w).0 ≡ (bury api jitter job w1).0 =
              same ∙ rw r refl in
            buried job _ stats m (api.now w1) h r
              (ap (λ (j : Job). j.status) left ∙ bury-failed api jitter job w1)
      ]
