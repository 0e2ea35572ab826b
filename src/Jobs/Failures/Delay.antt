-- ===== src/Jobs/Failures/Delay.antt =====
-- The delay before a retry (retryDelayForAttempt in backend/jobs/worker.go).
use native.Mathlib.Nat.{pow-suc}
use lok_lingo.Prelude.{
  ℕ, zero, suc, ◌+◌, ◌-◌, ◌*◌, ◌/◌, ◌^◌, ◌≤◌, ◌<◌, ◌≡◌, ap, min, inl, inr, ltb, arith, Bool-cases,
}
use lok_lingo.Jobs.Job.{second, max_retry_delay}
use lok_lingo.Jobs.Failures.{double_delay, retry_delay_for_attempt}

pow_pos : (n : ℕ) → 0 < 2 ^ n
pow_pos zero = omega arith
pow_pos (suc n) = omega (arith, pow_pos n, pow-suc 2 n)

-- The loop doubles the delay, as far as its cap can tell.
min-double_delay :
    (n d : ℕ) → min (double_delay n d) max_retry_delay ≡ min (d * 2 ^ n) max_retry_delay
unfolding double_delay
min-double_delay zero d = omega arith
min-double_delay (suc n) d = elim (Bool-cases (ltb d max_retry_delay)) [
  | inl e ↦
      rw (e, double_delay)
        (omega (arith, min-double_delay n (d * 2), ap (λ (t : ℕ). d * t) (pow-suc 2 n)))
  | inr e ↦ rw (e, double_delay) (grind (arith, pow_pos (suc n)))
]

-- For a random part of at most a quarter, the delay before attempt n is between
-- min (2 s * 2 ^ (n - 1)) (60 s) and a quarter more: never under 2 s, never over 75 s.
pub retry_delay_for_attempt_bounds :
    (jitter : ℕ → ℕ) (attempt : ℕ)
    → ((d : ℕ) → jitter d ≤ d / 4)
    → let base = min (2 * second * 2 ^ (attempt - 1)) max_retry_delay in
      (base ≤ retry_delay_for_attempt jitter attempt)
      × (retry_delay_for_attempt jitter attempt ≤ base + base / 4)
      × (2 * second ≤ retry_delay_for_attempt jitter attempt)
      × (retry_delay_for_attempt jitter attempt ≤ 75 * second)
unfolding retry_delay_for_attempt
retry_delay_for_attempt_bounds jitter zero h = omega (arith, h (2 * second))
retry_delay_for_attempt_bounds jitter (suc zero) h = omega (arith, h (2 * second))
retry_delay_for_attempt_bounds jitter (suc (suc n)) h = ground (
  arith,
  min-double_delay (suc n) (2 * second),
  h max_retry_delay,
  h (double_delay (suc n) (2 * second)),
  pow_pos (suc n),
)
