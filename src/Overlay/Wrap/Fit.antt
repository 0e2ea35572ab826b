-- ===== src/Overlay/Wrap/Fit.antt =====
-- The binary search of fitWordToWidth (backend/internal/services/overlay/util.go).
use mathlib.Core.List.{append-nil}
use lok_lingo.Prelude.{
  ℕ, zero, suc, ◌+◌, ◌-◌, ◌/◌, ◌≤◌, ◌<◌, ◌≡◌, refl, ◌∙◌, ◌⊎◌, inl, inr, ◌++◌, arith, ltb, leb,
  leb→le, Bool-cases, length, take, take-append-drop, length-take, length-drop,
}
use lok_lingo.Go.Text.{Text}
use lok_lingo.Overlay.Wrap.{search, fit_word_to_width}

-- A longer prefix of a text is not narrower.
abbrev pub IsMonotone : (Text → ℕ) → Type 0
IsMonotone measure = (t : Text) (m n : ℕ) → m ≤ n → measure (take m t) ≤ measure (take n t)

module _ (measure : Text → ℕ) (max_width : ℕ) (runes : Text) where
  abbrev Fits : ℕ → Type 0
  Fits n = measure (take n runes) ≤ max_width

  abbrev TooWideAbove : ℕ → Type 0
  TooWideAbove n = (k : ℕ) → n < k → k ≤ length runes → max_width < measure (take k runes)

  search_bounds :
      (fuel lo hi : ℕ)
      → lo ≤ hi
      → let n = search measure max_width fuel lo hi runes in (lo ≤ n) × (n ≤ hi)
  unfolding search
  search_bounds zero lo hi h = (omega arith, h)
  search_bounds (suc fuel) lo hi h =
      let mid = (lo + hi + 1) / 2 in
      elim (Bool-cases (ltb lo hi)) [
        | inr e ↦ rw (e, search) (omega arith, h)
        | inl e ↦ elim (Bool-cases (leb (measure (take mid runes)) max_width)) [
          | inl f ↦
              let (a, b) = search_bounds fuel mid hi (ground arith) in
              rw (e, search) (rw f (ground (arith, a, e), b))
          | inr f ↦
              let (a, b) = search_bounds fuel lo (mid - 1) (ground arith) in
              rw (e, search) (rw f (a, ground (arith, b, e)))
        ]
      ]

  search-Fits :
      (fuel lo hi : ℕ)
      → (lo ≡ 1) ⊎ Fits lo
      → let n = search measure max_width fuel lo hi runes in (n ≡ 1) ⊎ Fits n
  unfolding search
  search-Fits zero lo hi h = h
  search-Fits (suc fuel) lo hi h =
      let mid = (lo + hi + 1) / 2 in
      elim (Bool-cases (ltb lo hi)) [
        | inr e ↦ rw (e, search) h
        | inl e ↦ elim (Bool-cases (leb (measure (take mid runes)) max_width)) [
          | inl f ↦ rw (e, search) (rw f (search-Fits fuel mid hi (inr (leb→le _ _ f))))
          | inr f ↦ rw (e, search) (rw f (search-Fits fuel lo (mid - 1) h))
        ]
      ]

  search-TooWideAbove :
      (mono : IsMonotone measure) (fuel lo hi : ℕ)
      → lo ≤ hi
      → hi ≤ lo + fuel
      → TooWideAbove hi
      → TooWideAbove (search measure max_width fuel lo hi runes)
  unfolding search
  search-TooWideAbove mono zero lo hi h k w = λ j p q. w j (omega arith) q
  search-TooWideAbove mono (suc fuel) lo hi h k w =
      let mid = (lo + hi + 1) / 2 in
      elim (Bool-cases (ltb lo hi)) [
        | inr e ↦ rw (e, search) (λ j p q. w j (ground arith) q)
        | inl e ↦ elim (Bool-cases (leb (measure (take mid runes)) max_width)) [
          | inl f ↦
              rw (e, search)
                (rw f (search-TooWideAbove mono fuel mid hi (ground arith) (ground arith) w))
          | inr f ↦
              rw (e, search)
                (rw f (
                  search-TooWideAbove mono fuel lo (mid - 1) (ground arith) (ground arith)
                    (λ j p q. ground (arith, mono runes mid j, f))))
        ]
      ]

module _ (measure : Text → ℕ) where
  -- What is cut off a word and what is left are the word, whatever the widths.
  pub fit_word_to_width-append :
      (word : Text) (max_width : ℕ)
      → let (head, tail) = fit_word_to_width measure word max_width in head ++ tail ≡ word
  unfolding fit_word_to_width
  fit_word_to_width-append word max_width = elim (Bool-cases (leb (measure word) max_width)) [
    | inl e ↦ rw (e, fit_word_to_width) (append-nil word)
    | inr e ↦ rw (e, fit_word_to_width) (take-append-drop _ word)
  ]

  -- The piece fits, or it is one rune.
  pub fit_word_to_width-fits :
      (word : Text) (max_width : ℕ)
      → let head = (fit_word_to_width measure word max_width).0 in
        (measure head ≤ max_width) ⊎ (length head ≤ 1)
  unfolding fit_word_to_width
  fit_word_to_width-fits word max_width = elim (Bool-cases (leb (measure word) max_width)) [
    | inl e ↦ rw (e, fit_word_to_width) (inl (leb→le _ _ e))
    | inr e ↦
        rw (e, fit_word_to_width)
          (let n = search measure max_width (length word) 1 (length word) word in
            elim (search-Fits measure max_width word (length word) 1 (length word) (inl refl)) [
              | inl f ↦ inr (omega (arith, f, length-take n word))
              | inr f ↦ inl f
            ])
  ]

  -- A word that is too wide, of one rune or more, loses one rune at least.
  pub fit_word_to_width-shorter :
      (word : Text) (max_width : ℕ)
      → 0 < length word
      → let (head, tail) = fit_word_to_width measure word max_width in length tail < length word
  unfolding fit_word_to_width
  fit_word_to_width-shorter word max_width h = elim (Bool-cases (leb (measure word) max_width)) [
    | inl e ↦ rw (e, fit_word_to_width) h
    | inr e ↦
        rw (e, fit_word_to_width)
          (let n = search measure max_width (length word) 1 (length word) word in
            let (a, b) = search_bounds measure max_width word (length word) 1 (length word) h in
            omega (arith, length-drop n word, a, b))
  ]

  -- For a width that does not shrink as a text grows, fitWordToWidth cuts a word of one rune or more in
  -- two, of which the first fits or is a single rune, and no longer prefix of the word fits.
  pub fit_word_to_width-IsLongest :
      (word : Text) (max_width : ℕ)
      → IsMonotone measure
      → 0 < length word
      → let (head, tail) = fit_word_to_width measure word max_width in
        (head ++ tail ≡ word)
        × ((measure head ≤ max_width) ⊎ (length head ≡ 1))
        × ((k : ℕ) → length head < k → k ≤ length word → max_width < measure (take k word))
  unfolding fit_word_to_width
  fit_word_to_width-IsLongest word max_width mono h =
      elim (Bool-cases (leb (measure word) max_width)) [
        | inl e ↦
            rw (e, fit_word_to_width)
              (append-nil word, inl (leb→le _ _ e), λ k p q. absurd (omega (arith, p, q)))
        | inr e ↦
            rw (e, fit_word_to_width)
              (let n = search measure max_width (length word) 1 (length word) word in
                let (a, b) = search_bounds measure max_width word (length word) 1 (length word) h in
                let l : length (take n word) ≡ n = omega (arith, length-take n word, b) in
                (
                  take-append-drop n word,
                  elim (search-Fits measure max_width word (length word) 1 (length word)
                      (inl refl)) [ inl f ↦ inr (l ∙ f) | inr f ↦ inl f ],
                  λ k p q.
                      search-TooWideAbove measure max_width word mono (length word) 1 (length word)
                        h (omega arith) (λ j u v. absurd (omega (arith, u, v))) k
                        (omega (arith, p, l)) q,
                ))
      ]
