-- ===== src/Observability/Lifecycle/Recent.antt =====
-- Which records the log of lifecycle events holds, and which a snapshot shows
-- (backend/internal/observability/lifecycle.go).
use mathlib.Core.List.{append-nil, append_assoc}
use lok_lingo.Prelude.{
  ℕ, zero, suc, ◌+◌, ◌-◌, ◌≤◌, ◌≡◌, refl, sym, ap, ◌∙◌, ◌⊎◌, ◌↔◌, inl, inr, Bool, true, false, ◌&&◌,
  List, [], ◌∷◌, ◌++◌, ltb, if◌then◌else◌, length, drop, take, arith, Bool-cases, length-append,
  length-drop,
}
use lok_lingo.Prelude.Int.{ℤ, pos, negsuc}
use lok_lingo.Go.Equal.{and_parts, text_eq→eq, text_eq_refl}
use lok_lingo.Go.Text.{Text}
use lok_lingo.Observability.Lifecycle.{
  LifecycleEventRecord, Metrics, append_lifecycle_event, collect, snapshot_lifecycle_events,
  is_match, is_wanted, or_hundred, reverse_onto,
}

-- The last `n` elements of a list.
abbrev pub last : ℕ → List LifecycleEventRecord → List LifecycleEventRecord
last n l = drop (length l - n) l

-- The records that these appends leave.
abbrev pub append_all :
    List LifecycleEventRecord → List LifecycleEventRecord → List LifecycleEventRecord
append_all [] events = events
append_all (r ∷ rs) events = append_all rs (append_lifecycle_event r events)

drop-zero : (n : ℕ) (l : List LifecycleEventRecord) → n ≡ 0 → drop n l ≡ l
drop-zero zero l e = refl
drop-zero (suc n) l e = absurd (omega arith)

append-last :
    (r : LifecycleEventRecord) (l : List LifecycleEventRecord)
    → append_lifecycle_event r l ≡ last 2000 (l ++ r ∷ [])
unfolding append_lifecycle_event
append-last r l = elim (Bool-cases (ltb 2000 (length (l ++ r ∷ [])))) [
  | inl e ↦ rw (e, append_lifecycle_event) refl
  | inr e ↦ rw (e, append_lifecycle_event) (sym (drop-zero _ (l ++ r ∷ []) (ground (arith, e))))
]

drop-append :
    (n : ℕ) (xs ys : List LifecycleEventRecord)
    → n ≤ length xs
    → drop n (xs ++ ys) ≡ drop n xs ++ ys
drop-append zero xs ys h = refl
drop-append (suc n) [] ys h = absurd (omega arith)
drop-append (suc n) (x ∷ xs) ys h = drop-append n xs ys (omega arith)

drop-nil : (n : ℕ) → drop {A = LifecycleEventRecord} n [] ≡ []
drop-nil zero = refl
drop-nil (suc n) = refl

sums : (n m : ℕ) → suc (n + m) ≡ suc n + m
sums n m = omega arith

start : (m : ℕ) → m ≡ 0 + m
start m = omega arith

drop-drop : (m n : ℕ) (l : List LifecycleEventRecord) → drop m (drop n l) ≡ drop (n + m) l
drop-drop m zero l = ap (λ k. drop k l) (start m)
drop-drop m (suc n) [] = drop-nil m ∙ sym (drop-nil (suc n + m))
drop-drop m (suc n) (x ∷ l) = drop-drop m n l ∙ ap (λ k. drop k (x ∷ l)) (sums n m)

last-last : (l rs : List LifecycleEventRecord) → last 2000 (last 2000 l ++ rs) ≡ last 2000 (l ++ rs)
last-last l rs =
    let k : ℕ = length l - 2000 in
    let whole : drop k l ++ rs ≡ drop k (l ++ rs) = sym (drop-append k l rs (omega arith)) in
    let size : k + (length (drop k l ++ rs) - 2000) ≡ length (l ++ rs) - 2000 =
      omega (arith, length-append (drop k l) rs, length-append l rs, length-drop k l) in
    ap (drop (length (drop k l ++ rs) - 2000)) whole
    ∙ drop-drop (length (drop k l ++ rs) - 2000) k (l ++ rs)
    ∙ ap (λ n. drop n (l ++ rs)) size

append_last-all :
    (rs l : List LifecycleEventRecord) → append_all rs (last 2000 l) ≡ last 2000 (l ++ rs)
append_last-all [] l = ap (last 2000) (sym (append-nil l))
append_last-all (r ∷ rs) l =
    ap (append_all rs) (append-last r (last 2000 l) ∙ last-last l (r ∷ []))
    ∙ append_last-all rs (l ++ r ∷ [])
    ∙ ap (last 2000) (append_assoc l (r ∷ []) rs)

-- A log of at most 2000 records holds, after any appends, the last 2000 of its records and the new ones, in
-- the order in which they came.
pub append_all-last :
    (rs events : List LifecycleEventRecord)
    → length events ≤ 2000
    → append_all rs events ≡ last 2000 (events ++ rs)
append_all-last rs events h =
    ap (append_all rs) (sym (drop-zero (length events - 2000) events (omega arith)))
    ∙ append_last-all rs events

-- The records for which the test holds.
abbrev pub filter :
    (LifecycleEventRecord → Bool) → List LifecycleEventRecord → List LifecycleEventRecord
filter wanted [] = []
filter wanted (r ∷ rs) = let rest = filter wanted rs in if wanted r then r ∷ rest else rest

collect-filter :
    (wanted : LifecycleEventRecord → Bool) (n : ℕ) (l : List LifecycleEventRecord)
    → collect wanted n l ≡ take n (filter wanted l)
unfolding collect
collect-filter wanted zero l = refl
collect-filter wanted (suc n) [] = refl
collect-filter wanted (suc n) (r ∷ l) = elim (Bool-cases (wanted r)) [
  | inl e ↦ rw (e, collect) (ap (λ t. r ∷ t) (collect-filter wanted n l))
  | inr e ↦ rw (e, collect) (collect-filter wanted (suc n) l)
]

-- The records from the last to the first.
abbrev pub backwards : List LifecycleEventRecord → List LifecycleEventRecord
backwards [] = []
backwards (r ∷ rs) = backwards rs ++ r ∷ []

-- What a filter asks of a value: nothing if it is empty, and else that the value is the same.
abbrev pub Meets : Text → Text → Type 0
Meets wanted value = (wanted ≡ []) ⊎ (value ≡ wanted)

-- A test of records that holds exactly if the three filters are met.
abbrev pub Decides : Text → Text → Text → (LifecycleEventRecord → Bool) → Type 0
Decides correlation_id job_id event test =
    (r : LifecycleEventRecord)
    → (test r ≡ true) ↔ (
        Meets correlation_id r.payload.correlation_id
        × Meets job_id r.payload.job_id
        × Meets event r.event)

-- The number of records that a limit stands for.
pub record IsLimit (limit : ℤ) (n : ℕ) : Type 0 where
  pub positive : (k : ℕ) → limit ≡ pos (suc k) → n ≡ suc k
  pub at_zero : limit ≡ pos 0 → n ≡ 100
  pub negative : (k : ℕ) → limit ≡ negsuc k → n ≡ 100

or_hundred-IsLimit : (limit : ℤ) (n : ℕ) → IsLimit limit n → or_hundred limit ≡ n
or_hundred-IsLimit (pos zero) n h = sym (h.at_zero refl)
or_hundred-IsLimit (pos (suc k)) n h = sym (h.positive k refl)
or_hundred-IsLimit (negsuc k) n h = sym (h.negative k refl)

is_match-Meets : (wanted value : Text) → (is_match wanted value ≡ true) ↔ Meets wanted value
is_match-Meets [] value = (λ e. inl refl, λ m. refl)
is_match-Meets (c ∷ wanted) value = (
  λ e. inr (text_eq→eq value (c ∷ wanted) e),
  λ m. elim m [ inl z ↦ absurd (cc) | inr e ↦ rw e (text_eq_refl (c ∷ wanted)) ],
)

is_wanted-Decides :
    (correlation_id job_id event : Text)
    → Decides correlation_id job_id event (is_wanted correlation_id job_id event)
is_wanted-Decides correlation_id job_id event r =
    let a = is_match correlation_id r.payload.correlation_id in
    let b = is_match job_id r.payload.job_id in
    let ma = is_match-Meets correlation_id r.payload.correlation_id in
    let mb = is_match-Meets job_id r.payload.job_id in
    let mc = is_match-Meets event r.event in
    (
      λ e.
          let (both, ec) = and_parts (a && b) (is_match event r.event) e in
          let (ea, eb) = and_parts a b both in (ma.0 ea, mb.0 eb, mc.0 ec),
      λ m. rw (ma.1 m.0, mb.1 m.1, mc.1 m.2) refl,
    )

same_test : (a b : Bool) → (a ≡ true → b ≡ true) → (b ≡ true → a ≡ true) → a ≡ b
same_test true b h k = sym (h refl)
same_test false true h k = k refl
same_test false false h k = refl

filter-same :
    (s t : LifecycleEventRecord → Bool) (l : List LifecycleEventRecord)
    → ((r : LifecycleEventRecord) → s r ≡ t r)
    → filter s l ≡ filter t l
filter-same s t [] h = refl
filter-same s t (r ∷ l) h = rw (h r, filter-same s t l h) refl

reverse_onto-backwards :
    (l acc : List LifecycleEventRecord) → reverse_onto l acc ≡ backwards l ++ acc
reverse_onto-backwards [] acc = refl
reverse_onto-backwards (r ∷ l) acc =
    reverse_onto-backwards l (r ∷ acc) ∙ sym (append_assoc (backwards l) (r ∷ []) acc)

-- A snapshot is the newest records of the log that meet the three filters, an empty one being met by every record,
-- up to the limit, or to 100 if the limit is not positive: it is the first so many of those for which a test that
-- decides the filters holds, in the log read from its end.
pub snapshot_lifecycle_events-newest :
    (correlation_id job_id event : Text) (limit : ℤ) (n : ℕ) (test : LifecycleEventRecord → Bool)
    (m : Metrics)
    → IsLimit limit n
    → Decides correlation_id job_id event test
    → snapshot_lifecycle_events correlation_id job_id event limit m
      ≡ take n (filter test (backwards m.lifecycle_events))
unfolding snapshot_lifecycle_events
snapshot_lifecycle_events-newest correlation_id job_id event limit n test m h d =
    let wanted = is_wanted correlation_id job_id event in
    let w = is_wanted-Decides correlation_id job_id event in
    collect-filter wanted (or_hundred limit) (reverse_onto m.lifecycle_events [])
    ∙ ap (λ k. take k (filter wanted (reverse_onto m.lifecycle_events [])))
        (or_hundred-IsLimit limit n h)
    ∙ ap (λ l. take n (filter wanted l))
        (reverse_onto-backwards m.lifecycle_events [] ∙ append-nil (backwards m.lifecycle_events))
    ∙ ap (take n) (
        filter-same wanted test (backwards m.lifecycle_events) (λ r.
          same_test (wanted r) (test r) (λ e. (d r).1 ((w r).0 e)) (λ e. (w r).1 ((d r).0 e))))
