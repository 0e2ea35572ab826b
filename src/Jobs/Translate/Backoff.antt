-- ===== src/Jobs/Translate/Backoff.antt =====
-- The retries of translateWithRetry: which call's answer is returned, after how many retries and pauses.
use native.Mathlib.Nat.{pow-suc}
use lok_lingo.Prelude.{
  ℕ, zero, suc, ◌+◌, ◌-◌, ◌*◌, ◌^◌, ◌≤◌, ◌≡◌, refl, ap, ◌∙◌, ◌⊎◌, true, false, none, arith,
}
use lok_lingo.Go.Text.{Text}
use lok_lingo.Go.Failure.{GoError, Result, ok, err}
use lok_lingo.Jobs.Translate.Retry.{
  Runtime, State, is_retryable, is_done, moved, call, back_off, retry_from, translate_with_retry,
  translate_max_retries, translate_retry_base, inc_translate_retry,
}

module _ (rt : Runtime) (ctx : rt.Ctx) (text source target : Text) where
  abbrev pub called : State rt → Result Text × State rt
  called s = call rt ctx text source target s

  -- `Rounds k a d s a' d' s'`: from attempt `a` with the pause `d`, in the state `s`, `k` attempts in a row
  -- fail in a way that is retried, and leave the attempt `a'`, the pause `d'` and the state `s'`.
  pub data Rounds : ℕ → ℕ → ℕ → State rt → ℕ → ℕ → State rt → Type 0 where
    start : {a d : ℕ} {s : State rt} → Rounds zero a d s a d s
    fail :
        {k a d a' d' : ℕ} {s s' : State rt} (e : GoError)
        → (called s).0 ≡ err e
        → is_retryable e ≡ true
        → is_done rt ctx (called s).1.world ≡ false
        → (back_off rt ctx a d (called s).1).0 ≡ none
        → Rounds k (a + 1) (d * 2) (back_off rt ctx a d (called s).1).1 a' d' s'
        → Rounds (suc k) a d s a' d' s'

  retry_from-Rounds :
      {k a d a' d' : ℕ} {s s' : State rt} (n left : ℕ)
      → n ≡ k + left
      → Rounds k a d s a' d' s'
      → retry_from rt n a d ctx text source target s
        ≡ retry_from rt left a' d' ctx text source target s'
  unfolding retry_from
  retry_from-Rounds {a = a} {d = d} {s = s} n left e start =
      ap (λ j. retry_from rt j a d ctx text source target s) (let e' : n ≡ left = omega arith in e')
  retry_from-Rounds zero left e (fail x p q r w rest) = absurd (omega arith)
  retry_from-Rounds (suc n) left e (fail x p q r w rest) =
      rw (p, retry_from) (rw (q, r) (rw (w) (retry_from-Rounds n left (omega arith) rest)))

  Rounds-count :
      {k a d a' d' : ℕ} {s s' : State rt}
      → Rounds k a d s a' d' s'
      → (a' ≡ a + k)
        × (d' ≡ d * 2 ^ k)
        × (s'.metrics.translate_retry_count ≡ s.metrics.translate_retry_count + k)
        × (s'.metrics.timeout_retry_count ≡ s.metrics.timeout_retry_count)
        × (s'.metrics.split_count ≡ s.metrics.split_count)
  unfolding inc_translate_retry
  Rounds-count start = (omega arith, omega arith, omega arith, refl, refl)
  Rounds-count {k = suc k} {d = d} (fail x p q r w rest) =
      omega (arith, Rounds-count rest, ap (λ (t : ℕ). d * t) (pow-suc 2 k))

  -- An answer that is not followed by a retry, after `k` retries.
  abbrev pub IsFinal : ℕ → Result Text × State rt → Type 0
  IsFinal k (ok t, s) = Unit
  IsFinal k (err e, s) =
      (is_retryable e ≡ false) ⊎ (is_done rt ctx s.world ≡ true) ⊎ (k ≡ translate_max_retries)

  retry_from-IsFinal :
      (left k a d : ℕ) (s : State rt)
      → k + left ≡ translate_max_retries
      → IsFinal k (called s)
      → retry_from rt left a d ctx text source target s ≡ called s
  unfolding retry_from
  retry_from-IsFinal zero k a d s e f = refl
  retry_from-IsFinal (suc left) k a d s e f = ground arith

  -- Once a slot is taken, and k ≤ 3 attempts in a row have failed in a way that is retried, an answer of
  -- the next call that is final (a success, an error that is not retried, any error once the context is
  -- done, any error after the third retry) is the result, and the slot is given back. Then `k` retries
  -- were counted and nothing else, and the pause would next be 500 * 2 ^ k ms.
  pub translate_with_retry-IsFinal :
      (s : State rt) {k a d : ℕ} {s' : State rt}
      → (rt.acquire ctx s.world).0 ≡ none
      → k ≤ translate_max_retries
      → Rounds k 0 translate_retry_base (moved rt (rt.acquire ctx s.world).1 s) a d s'
      → IsFinal k (called s')
      → let (r, t) = called s' in
        (translate_with_retry rt ctx text source target s ≡ (r, moved rt (rt.release t.world) t))
        × (d ≡ 500 * 2 ^ k)
        × (t.metrics.translate_retry_count ≡ s.metrics.translate_retry_count + k)
        × (t.metrics.timeout_retry_count ≡ s.metrics.timeout_retry_count)
        × (t.metrics.split_count ≡ s.metrics.split_count)
  unfolding translate_with_retry
  translate_with_retry-IsFinal s {k = k} {a = a} {d = d} {s' = s'} free h rounds final =
      let n = Rounds-count rounds in
      let e : retry_from rt 3 0 500 ctx text source target (moved rt (rt.acquire ctx s.world).1 s)
          ≡ called s' =
        retry_from-Rounds 3 (3 - k) (omega arith) rounds
        ∙ retry_from-IsFinal (3 - k) k a d s' (omega arith) final in
      (rw (free, translate_with_retry) (rw e refl), n.1, n.2, n.3, n.4)
