-- ===== src/Middleware/Gate/Cap.antt =====
-- How many requests of the capped route run at once (backend/middleware/inflight_gate.go).
use lok_lingo.Prelude.{
  ℕ, zero, suc, ◌+◌, ◌≤◌, ◌≡◌, refl, ◌↔◌, inl, inr, Bool, true, false, List, [], ◌∷◌, All, ap, ◌∙◌,
  ltb, ltb→lt, if◌then◌else◌, arith, Bool-cases,
}
use lok_lingo.Prelude.Int.{ℤ, pos, negsuc}
use lok_lingo.Go.Text.{Text, text_eq, is_empty}
use lok_lingo.Middleware.Gate.{
  capacity, passed, admitted, refused, applies, enter, leave, Request, GateState, GateEvent, comes,
  is_done, complete, handle, serve,
}

-- The cap that a maximum stands for: itself, or one if it is not positive.
pub record IsCap (max_inflight : ℤ) (cap : ℕ) : Type 0 where
  pub positive : (n : ℕ) → max_inflight ≡ pos (suc n) → cap ≡ suc n
  pub at_zero : max_inflight ≡ pos 0 → cap ≡ 1
  pub negative : (n : ℕ) → max_inflight ≡ negsuc n → cap ≡ 1

capacity-IsCap : (z : ℤ) (cap : ℕ) → IsCap z cap → capacity z ≡ cap
capacity-IsCap (pos zero) cap h = ground (arith, h.at_zero refl)
capacity-IsCap (pos (suc n)) cap h = ground (arith, h.positive n refl)
capacity-IsCap (negsuc n) cap h = ground (arith, h.negative n refl)

-- One for a path of the capped route, which is every path if none is named.
abbrev pub weight : Text → Text → ℕ
weight route path = if is_empty route then 1 else if text_eq path route then 1 else 0

abbrev pub on_route : Text → List Request → ℕ
on_route route [] = 0
on_route route (q ∷ qs) = weight route q.path + on_route route qs

abbrev pub idle : GateState
idle = record { in_use = 0; running = [] }

-- As many slots are in use as requests of the route run, no more than the cap; and the next request is refused
-- exactly if it is one of the route, and as many as the cap run.
pub record IsCapped (max_inflight : ℤ) (route : Text) (cap : ℕ) (s : GateState) : Type 0 where
  pub counted : s.in_use ≡ on_route route s.running
  pub capped : on_route route s.running ≤ cap
  pub refuses :
      (path : Text)
      → ((enter max_inflight route path s.in_use).0 ≡ refused)
        ↔ ((weight route path ≡ 1) × (on_route route s.running ≡ cap))

module _ (max_inflight : ℤ) (route : Text) where
  weight-applies : (path : Text) → weight route path ≡ (if applies route path then 1 else 0)
  weight-applies path = ground arith

  weight_one : (path : Text) → applies route path ≡ true → weight route path ≡ 1
  weight_one path e = ground (arith, weight-applies path, e)

  weight_zero : (path : Text) → applies route path ≡ false → weight route path ≡ 0
  weight_zero path e = ground (arith, weight-applies path, e)

  -- A request that runs has a slot exactly if it is one of the route, and none that runs was refused.
  abbrev HasOwn : Request → Type 0
  HasOwn q = q.admission ≡ (if applies route q.path then admitted else passed)

  record Good (s : GateState) : Type 0 where
    own : All HasOwn s.running
    counted : s.in_use ≡ on_route route s.running
    capped : s.in_use ≤ capacity max_inflight

  comes-Good :
      (path : Text) (s : GateState) → Good s → Good (handle max_inflight route (comes path) s)
  unfolding handle enter
  comes-Good path s g = elim (Bool-cases (applies route path)) [
    | inr e ↦
        rw (e, handle, enter)
          (record {
            own = (rw e refl, g.own);
            counted = omega (arith, g.counted, weight_zero path e);
            capped = g.capped;
          })
    | inl e ↦ elim (Bool-cases (ltb s.in_use (capacity max_inflight))) [
      | inl f ↦
          rw (e, handle, enter)
            (rw f (record {
              own = (rw e refl, g.own);
              counted = omega (arith, g.counted, weight_one path e);
              capped = omega (arith, ltb→lt _ _ f);
            }))
      | inr f ↦ rw (e, handle, enter) (rw f g)
    ]
  ]

  leave-weight :
      (q : Request) (k n : ℕ)
      → HasOwn q
      → n ≡ k + (weight route q.path + 0)
      → leave q.admission n ≡ k
  unfolding leave
  leave-weight q k n h e = elim (Bool-cases (applies route q.path)) [
    | inl a ↦
        let has_slot : q.admission ≡ admitted = h ∙ picked _ a in
        ap (λ x. leave x n) has_slot ∙ omega (arith, e, weight_one q.path a)
    | inr a ↦
        let has_none : q.admission ≡ passed = h ∙ left_out _ a in
        ap (λ x. leave x n) has_none ∙ omega (arith, e, weight_zero q.path a)
  ]
    where
      picked : (b : Bool) → b ≡ true → (if b then admitted else passed) ≡ admitted
      picked b a = rw a refl

      left_out : (b : Bool) → b ≡ false → (if b then admitted else passed) ≡ passed
      left_out b a = rw a refl

  -- Taking out a request at a place, with so many slots in use by others.
  complete-own :
      (i k n : ℕ) (qs : List Request)
      → All HasOwn qs
      → n ≡ k + on_route route qs
      → let s = complete i n qs in
        All HasOwn s.running × (s.in_use ≡ k + on_route route s.running) × (s.in_use ≤ n)
  unfolding complete
  complete-own i k n [] h e = (tt, e, omega arith)
  complete-own zero k n (q ∷ qs) h e =
      let l = leave-weight q (k + on_route route qs) n h.0 (omega (arith, e)) in
      (h.1, l, omega (arith, l, e))
  complete-own (suc i) k n (q ∷ qs) h e =
      let (a, b, c) = complete-own i (k + weight route q.path) n qs h.1 (omega (arith, e)) in
      ((h.0, a), omega (arith, b), c)

  handle-Good : (e : GateEvent) (s : GateState) → Good s → Good (handle max_inflight route e s)
  unfolding handle
  handle-Good (comes path) s g = comes-Good path s g
  handle-Good (is_done i) s g =
      let (a, b, c) = complete-own i 0 s.in_use s.running g.own (omega (arith, g.counted)) in
      record { own = a; counted = omega (arith, b); capped = omega (arith, c, g.capped) }

  serve-Good : (es : List GateEvent) (s : GateState) → Good s → Good (serve max_inflight route es s)
  unfolding serve
  serve-Good [] s g = g
  serve-Good (e ∷ es) s g = serve-Good es _ (handle-Good e s g)

  enter-refused :
      (path : Text) (n : ℕ)
      → n ≤ capacity max_inflight
      → ((enter max_inflight route path n).0 ≡ refused)
        ↔ ((weight route path ≡ 1) × (n ≡ capacity max_inflight))
  unfolding enter
  enter-refused path n h = elim (Bool-cases (applies route path)) [
    | inr e ↦ rw (e, enter) (λ x. absurd (cc), λ k. absurd (omega (arith, weight_zero path e, k.0)))
    | inl e ↦ elim (Bool-cases (ltb n (capacity max_inflight))) [
      | inl f ↦
          rw (e, enter) (rw f (λ x. absurd (cc), λ k. absurd (omega (arith, ltb→lt _ _ f, k.1))))
      | inr f ↦ rw (e, enter) (rw f (λ x. (weight_one path e, ground (arith, f, h)), λ k. refl))
    ]
  ]

-- However requests come in and are done, from the start on, whether their handlers return or panic: as many slots are
-- in use as requests of the capped route run, and those are no more than the cap, which is the given maximum, or one
-- if that is not positive; and the next request is refused exactly if it is one of the route, and as many as the cap run.
pub serve-IsCapped :
    (max_inflight : ℤ) (route : Text) (cap : ℕ) (es : List GateEvent)
    → IsCap max_inflight cap
    → IsCapped max_inflight route cap (serve max_inflight route es idle)
serve-IsCapped max_inflight route cap es h =
    let start : Good max_inflight route idle = record {
      own = tt;
      counted = refl;
      capped = omega arith;
    } in
    let g = serve-Good max_inflight route es idle start in
    let s = serve max_inflight route es idle in
    let same = capacity-IsCap max_inflight cap h in
    record {
      counted = g.counted;
      capped = omega (arith, g.counted, g.capped, same);
      refuses = λ path.
          let (to, from) = enter-refused max_inflight route path s.in_use g.capped in
          (
            λ e. let (a, b) = to e in (a, omega (arith, b, g.counted, same)),
            λ k. from (k.0, omega (arith, k.1, g.counted, same)),
          );
    }
