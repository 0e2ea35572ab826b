-- ===== src/Services/Mock.antt =====
-- The provider that replays answers (backend/services/providers/mock.go).
use lok_lingo.Prelude.{
  ℕ, zero, suc, ◌+◌, ◌-◌, ◌<◌, ◌≡◌, refl, ap, ◌∙◌, inl, inr, List, [], ◌∷◌, ◌++◌, Option, none,
  some, ltb, leb, if◌then◌else◌, length, get_elem?, arith, Bool-cases,
}
use lok_lingo.Go.Text.{Text, codes}
use lok_lingo.Go.Failure.{plain_error, GoError, Result, ok, err}
use lok_lingo.Services.Health.{Name}
use lok_lingo.Services.Orchestrator.Retry.{TranslateRequest}

-- An error of `none` is a success; latencies are in nanoseconds.
pub record MockProvider : Type 0 where
  pub name : Name
  pub results : List Text
  pub errors : List (Option GoError)
  pub latencies : List ℕ
  pub calls : List TranslateRequest

abbrev pub new_mock_provider : Name → Text → MockProvider
new_mock_provider name result = record {
  name = name;
  results = result ∷ [];
  errors = [];
  latencies = [];
  calls = [];
}

abbrev pub new_failing_mock_provider : Name → GoError → MockProvider
new_failing_mock_provider name e = record {
  name = name;
  results = [];
  errors = some e ∷ [];
  latencies = [];
  calls = [];
}

-- The errors of a mock that fails so many times: one place more than the failures.
unfoldable pub failures_then_none : ℕ → GoError → List (Option GoError)
failures_then_none zero e = none ∷ []
failures_then_none (suc n) e = some e ∷ failures_then_none n e

abbrev pub new_transient_then_success_mock : Name → ℕ → GoError → Text → MockProvider
new_transient_then_success_mock name fail_count e result = record {
  name = name;
  results = result ∷ [];
  errors = failures_then_none fail_count e;
  latencies = [];
  calls = [];
}

-- The entry for a call: the last is used again.
unfoldable pub entry_at {ℓ} : {A : Type ℓ} → List A → ℕ → Option A
entry_at l i = get_elem? l (if leb (length l) i then length l - 1 else i)

abbrev pub latency_at : List ℕ → ℕ → ℕ
latency_at l i = elim (get_elem? l i) [ none ↦ 0 | some d ↦ d ]

abbrev pub no_results : Name → GoError
no_results name =
    plain_error (codes "mock provider " ++ codes name ++ codes ": no results configured")

abbrev pub result_of : Name → Option Text → Result Text
result_of name none = err (no_results name)
result_of name (some text) = ok text

-- The configured answer of a call, once its pause is over.
unfoldable pub scripted : MockProvider → ℕ → Result Text
scripted m i = elim (entry_at m.errors i) [
  | none ↦ result_of m.name (entry_at m.results i)
  | some e ↦ elim e [ none ↦ result_of m.name (entry_at m.results i) | some x ↦ err x ]
]

-- Translate: with the error of the context at the call, and what becomes of a pause.
unfoldable pub translate :
    Option GoError
    → (ℕ → Option GoError)
    → TranslateRequest
    → MockProvider
    → Result Text × MockProvider
translate now wait req m =
    let i = length m.calls in
    let m' = record m { calls = m.calls ++ req ∷ [] } in
    elim now [
      | some e ↦ (err e, m')
      | none ↦
          elim (if ltb 0 (latency_at m.latencies i)
            then wait (latency_at m.latencies i)
            else none) [ some e ↦ (err e, m') | none ↦ (scripted m i, m') ]
    ]

abbrev pub call_count : MockProvider → ℕ
call_count m = length m.calls

length-failures : (n : ℕ) (e : GoError) → length (failures_then_none n e) ≡ n + 1
unfolding failures_then_none
length-failures zero e = refl
length-failures (suc n) e = omega (arith, length-failures n e)

failure_at : (n i : ℕ) (e : GoError) → i < n → get_elem? (failures_then_none n e) i ≡ some (some e)
unfolding failures_then_none
failure_at zero i e h = absurd (omega arith)
failure_at (suc n) zero e h = refl
failure_at (suc n) (suc i) e h = failure_at n i e (omega arith)

success_at : (n : ℕ) (e : GoError) → get_elem? (failures_then_none n e) n ≡ some none
unfolding failures_then_none
success_at zero e = refl
success_at (suc n) e = success_at n e

entry_at-failures :
    (n i : ℕ) (e : GoError)
    → entry_at (failures_then_none n e) i ≡ some (if ltb i n then some e else none)
unfolding entry_at
entry_at-failures n i e = elim (Bool-cases (ltb i n)) [
  | inl k ↦
      rw (k, entry_at)
        (index i (ground (arith, k, length-failures n e)) ∙ failure_at n i e (ground (arith, k)))
  | inr k ↦ rw (k, entry_at) (index n (ground (arith, k, length-failures n e)) ∙ success_at n e)
]
  where
    index :
        (j : ℕ)
        → (if leb (length (failures_then_none n e)) i
            then length (failures_then_none n e) - 1
            else i)
          ≡ j
        → get_elem? (failures_then_none n e) (
            if leb (length (failures_then_none n e)) i
            then length (failures_then_none n e) - 1
            else i)
          ≡ get_elem? (failures_then_none n e) j
    index j q = ap (get_elem? (failures_then_none n e)) q

entry_at-single : (text : Text) (i : ℕ) → entry_at (text ∷ []) i ≡ some text
unfolding entry_at
entry_at-single text zero = refl
entry_at-single text (suc i) =
    let first : (if leb 1 (suc i) then 0 else suc i) ≡ 0 = ground arith in
    ap (get_elem? (text ∷ [])) first

-- While its context is not done, the mock that fails so many times answers each of its first so many calls with the error, and every later one with the
-- result; and it records each request.
pub translate-transient_then_success :
    (name : Name) (n : ℕ) (e : GoError) (text : Text) (earlier : List TranslateRequest)
    (req : TranslateRequest) (wait : ℕ → Option GoError)
    → translate none wait req
        (record (new_transient_then_success_mock name n e text) { calls = earlier })
      ≡ (
        if ltb (length earlier) n then err e else ok text,
        record (new_transient_then_success_mock name n e text) { calls = earlier ++ req ∷ [] },
      )
unfolding translate scripted
translate-transient_then_success name n e text earlier req wait =
    ap (λ a. (a, record m { calls = earlier ++ req ∷ [] })) answer
  where
    m : MockProvider
    m = new_transient_then_success_mock name n e text

    answer :
        scripted (record m { calls = earlier }) (length earlier)
        ≡ (if ltb (length earlier) n then err e else ok text)
    answer = elim (Bool-cases (ltb (length earlier) n)) [
      | inl k ↦ rw k (
          rw
            (
              entry_at-failures n (length earlier) e
                  ∙ ap (λ b. some (if b then some e else none)) k,
              scripted,
            )
            refl)
      | inr k ↦ rw k (
          rw
            (
              entry_at-failures n (length earlier) e
                  ∙ ap (λ b. some (if b then some e else none)) k,
              scripted,
            )
            (rw (entry_at-single text (length earlier), scripted) refl))
    ]
