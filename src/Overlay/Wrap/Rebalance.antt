-- ===== src/Overlay/Wrap/Rebalance.antt =====
-- rebalanceWrappedLines keeps the runes on the lines that are not blank (backend/internal/services/overlay/draw.go).
use mathlib.Core.List.{append-nil, append_assoc}
use lok_lingo.Prelude.{
  ℕ, zero, suc, ◌-◌, ◌≡◌, refl, sym, ap, ◌∙◌, ◌⊎◌, inl, inr, Bool, true, false, ◌&&◌, ◌||◌, not,
  List, [], ◌∷◌, ◌++◌, Option, none, some, Bool-cases, Option-cases, ltb, length, take, drop,
  take-append-drop, if◌then◌else◌,
}
use lok_lingo.Go.Text.{Text, join}
use lok_lingo.Overlay.Wrap.{
  strings_fields, strings_trim_space, one_space, last_two, cons_line, Balance, moved, try_moved,
  balanced, rebalance_last, rebalance_wrapped_lines, is_blank,
}
use lok_lingo.Overlay.Wrap.Spaces.{
  squeeze, ink, squeeze-append, ink-append, squeeze-trim_space, ink-fields, squeeze-join,
}

abbrev lines_of : Option (List Text × Text × Text) → List Text
lines_of none = []
lines_of (some (ls, p, q)) = ls ++ p ∷ q ∷ []

last_two-found : (ls : List Text) → (last_two ls ≡ none) ⊎ (lines_of (last_two ls) ≡ ls)
unfolding last_two
last_two-found [] = inl refl
last_two-found (l ∷ []) = inl refl
last_two-found (l ∷ m ∷ []) = inr refl
last_two-found (l ∷ m ∷ n ∷ ls) = elim (last_two-found (m ∷ n ∷ ls)) [
  | inl e ↦ inl (ap (cons_line l) e)
  | inr e ↦ go (last_two (m ∷ n ∷ ls)) e
]
  where
    go :
        (o : Option (List Text × Text × Text))
        → lines_of o ≡ m ∷ n ∷ ls
        → (cons_line l o ≡ none) ⊎ (lines_of (cons_line l o) ≡ l ∷ m ∷ n ∷ ls)
    go none e = absurd (cc)
    go (some t) e = inr (ap (λ r. l ∷ r) e)

pub last_two-lines :
    (ls before : List Text) (p q : Text)
    → last_two ls ≡ some (before, p, q)
    → ls ≡ before ++ p ∷ q ∷ []
last_two-lines ls before p q e = elim (last_two-found ls) [
  | inl f ↦ absurd (cc)
  | inr f ↦ sym f ∙ ap lines_of e
]

ink-two :
    (before : List Text) (p q : Text)
    → ink (before ++ p ∷ q ∷ []) ≡ ink before ++ (squeeze p ++ squeeze q)
ink-two before p q =
    ink-append before (p ∷ q ∷ [])
    ∙ ap (λ r. ink before ++ r)
        (squeeze-append p (q ++ []) ∙ ap (λ r. squeeze p ++ squeeze r) (append-nil q))

ink-if : (b : Bool) (xs ys : List Text) → ink ys ≡ ink xs → ink (if b then xs else ys) ≡ ink xs
ink-if true xs ys h = refl
ink-if false xs ys h = h

module _ (measure : Text → ℕ) where
  -- What the two lines hold.
  abbrev weighs : Balance → Text
  weighs b = squeeze b.best_prev ++ squeeze b.best_last

  moved-weighs :
      (n : ℕ) (words : List Text) (last : Text)
      → weighs (moved measure n words last) ≡ ink words ++ squeeze last
  unfolding squeeze join is_blank
  moved-weighs n words last =
      let k = length words - n in
      let tail = join (drop k words) one_space in
      ap (λ r. r ++ squeeze (strings_trim_space (tail ++ (one_space ++ last))))
        (squeeze-join (take k words))
      ∙ ap (λ r. ink (take k words) ++ r)
          (squeeze-trim_space (tail ++ (one_space ++ last))
            ∙ squeeze-append tail (one_space ++ last)
            ∙ ap (λ r. r ++ squeeze last) (squeeze-join (drop k words)))
      ∙ sym (append_assoc (ink (take k words)) (ink (drop k words)) (squeeze last))
      ∙ ap (λ r. r ++ squeeze last)
          (sym (ink-append (take k words) (drop k words)) ∙ ap ink (take-append-drop k words))

  try_moved-weighs :
      (w n : ℕ) (words : List Text) (last : Text) (best : Balance)
      → weighs best ≡ ink words ++ squeeze last
      → weighs (try_moved measure w n words last best) ≡ ink words ++ squeeze last
  unfolding try_moved
  try_moved-weighs w n words last best h =
      let b = moved measure n words last in
      elim (Bool-cases (
        ltb n (length words)
        && not (ltb w (measure b.best_prev) || ltb w (measure b.best_last))
        && ltb b.best_delta best.best_delta)) [
          | inl e ↦ rw (e, try_moved) (moved-weighs n words last)
          | inr e ↦ rw (e, try_moved) h
        ]

  rebalance_last-ink :
      (w : ℕ) (lines before : List Text) (l m : Text)
      → lines ≡ before ++ l ∷ m ∷ []
      → ink (rebalance_last measure w lines (before, l, m)) ≡ ink lines
  unfolding rebalance_last
  rebalance_last-ink w lines before l m h =
      let prev = strings_trim_space l in
      let last = strings_trim_space m in
      let b = balanced measure w prev last in
      let words = strings_fields prev in
      let start : squeeze prev ++ squeeze last ≡ ink words ++ squeeze last =
        ap (λ r. r ++ squeeze last) (sym (ink-fields prev)) in
      let kept : weighs b ≡ ink words ++ squeeze last =
        try_moved-weighs w 2 words last _ (try_moved-weighs w 1 words last _ start) in
      ink-if _ lines (before ++ b.best_prev ∷ b.best_last ∷ []) (
        ink-two before b.best_prev b.best_last
        ∙ ap (λ r. ink before ++ r)
            (kept
              ∙ sym start
              ∙ ap (λ r. r ++ squeeze last) (squeeze-trim_space l)
              ∙ ap (λ r. squeeze l ++ r) (squeeze-trim_space m))
        ∙ sym (ink-two before l m)
        ∙ ap ink (sym h))

  pub rebalance_wrapped_lines-ink :
      (w : ℕ) (lines : List Text) → ink (rebalance_wrapped_lines measure w lines) ≡ ink lines
  unfolding rebalance_wrapped_lines
  rebalance_wrapped_lines-ink zero lines = refl
  rebalance_wrapped_lines-ink (suc w) lines = elim (Option-cases (last_two lines)) [
    | inl e ↦ rw (e, rebalance_wrapped_lines) refl
    | inr ((before, l, m), e) ↦
        rw (e, rebalance_wrapped_lines)
          (rebalance_last-ink (suc w) lines before l m (last_two-lines lines before l m e))
  ]
