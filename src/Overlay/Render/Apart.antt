-- ===== src/Overlay/Render/Apart.antt =====
-- The blocks that are drawn lie inside the image and apart from each other
-- (backend/internal/services/overlay/render.go).
use mathlib.Core.Path.{subst}
use lok_lingo.Prelude.{
  ℕ, ◌+◌, ◌*◌, ◌≤◌, ◌<◌, ◌≡◌, refl, sym, ap, ◌⊎◌, inl, inr, Bool, false, ◌&&◌, ◌||◌, not, List, [],
  ◌∷◌, map, any, All, Option, none, some, leb, ◌==◌, Bool-cases, Option-cases, arith, length,
}
use lok_lingo.Go.Text.{Text}
use lok_lingo.Go.Failure.{Result-cases}
use lok_lingo.Overlay.Options.{OverlayOptions}
use lok_lingo.Overlay.Wrap.{no_lines}
use lok_lingo.Overlay.Wrap.Content.{Found, Found-map, IsSplitter}
use lok_lingo.Overlay.Layout.{TextLayout}
use lok_lingo.Overlay.Layout.Total.{IsFound, fit_text_layout-IsFound}
use lok_lingo.Overlay.Boxes.{
  OverlayCandidate, rect_area, intersect, overlaps, should_skip_for_overlap,
  is_duplicate_nearby_text,
}
use lok_lingo.Overlay.Render.{
  Canvas, Drawn, box_of, layout_for, draw_laid_out, draw_horizontal, draw_vertical, draw_candidate,
  draw_candidates,
}

-- The box is 24 pixels wide and high or more, and inside the image.
abbrev pub IsInside : ℕ → ℕ → OverlayCandidate → Type 0
IsInside width height c =
    (c.box.min_x + 24 ≤ c.box.max_x)
    × (c.box.max_x ≤ width)
    × (c.box.min_y + 24 ≤ c.box.max_y)
    × (c.box.max_y ≤ height)

-- Less than 0.45 of the first box is under the second.
abbrev pub IsApart : OverlayCandidate → OverlayCandidate → Type 0
IsApart c d = rect_area (intersect c.box d.box) * 100 < rect_area c.box * 45

-- Each block is apart from those drawn before it, and repeats the text of none nearby.
abbrev pub AreApart : (Text → Text) → List OverlayCandidate → Type 0
AreApart lower [] = Unit
AreApart lower (c ∷ cs) =
    All (IsApart c) cs × (is_duplicate_nearby_text lower c cs ≡ false) × AreApart lower cs

not_skipped :
    (c : OverlayCandidate) (cs : List OverlayCandidate)
    → should_skip_for_overlap c.box (map box_of cs) ≡ false
    → All (IsApart c) cs
unfolding should_skip_for_overlap
not_skipped c cs h = go cs (ground (arith, h)) (ground (arith, h))
  where
    go :
        (cs : List OverlayCandidate)
        → (rect_area c.box == 0) ≡ false
        → any (overlaps c.box) (map box_of cs) ≡ false
        → All (IsApart c) cs
    go [] a h = tt
    go (d ∷ cs) a h = (
      apart (rect_area c.box) (rect_area (intersect c.box d.box)) a (left_false _ _ h),
      go cs a (right_false (overlaps c.box d.box) _ h),
    )
      where
        apart :
            (area overlap : ℕ)
            → (area == 0) ≡ false
            → (not (overlap == 0) && leb (area * 45) (overlap * 100)) ≡ false
            → overlap * 100 < area * 45
        apart area overlap a h = ground (arith, a, h)

        left_false : (a b : Bool) → (a || b) ≡ false → a ≡ false
        left_false a b h = ground (arith, h)

        right_false : (a b : Bool) → (a || b) ≡ false → b ≡ false
        right_false a b h = ground (arith, h)

module _ (v : Canvas) (opts : OverlayOptions)
    (splits : (t : Text) (size : ℕ)
      → IsSplitter ((v.typeface t).measure size) ((v.typeface t).split size)) where
  -- One candidate more is drawn, or one more is skipped.
  abbrev IsStep : OverlayCandidate → Drawn v → Drawn v → Type 0
  IsStep c s t =
      ((t.drawn ≡ s.drawn) × (t.skipped ≡ s.skipped + 1))
      ⊎ ((t.drawn ≡ c ∷ s.drawn) × (t.skipped ≡ s.skipped))

  draw_laid_out-IsStep :
      (c : OverlayCandidate) (l : TextLayout) (s : Drawn v)
      → IsStep c s (draw_laid_out v opts c l s)
  draw_laid_out-IsStep c l s = elim (Bool-cases (no_lines l.lines)) [
    | inl e ↦ rw e (inl (refl, refl))
    | inr e ↦ elim (Option-cases (v.face_for_text c.text l.font_size s.world).0) [
      | inl f ↦ rw e (rw f (inr (refl, refl)))
      | inr (x, f) ↦ rw e (rw f (inl (refl, refl)))
    ]
  ]

  draw_horizontal-IsStep :
      (c : OverlayCandidate) (s : Drawn v) → Found (IsStep c s) (draw_horizontal v opts c s)
  unfolding draw_horizontal
  draw_horizontal-IsStep c s =
      go (layout_for v opts c)
        (fit_text_layout-IsFound (v.typeface c.text) c.text _ _ (splits c.text) _ _)
    where
      go :
          (o : Option TextLayout)
          → IsFound o
          → Found (IsStep c s) (elim o as (λ _. Option (Drawn v)) [
            | none ↦ none
            | some l ↦ some (draw_laid_out v opts c l s)
          ])
      go none h = h
      go (some l) h = draw_laid_out-IsStep c l s

  draw_vertical-IsStep :
      (c : OverlayCandidate) (s : Drawn v) → Found (IsStep c s) (draw_vertical v opts c s)
  unfolding draw_vertical
  draw_vertical-IsStep c s =
      let (r, w) = v.draw_vertical_text_block c opts s.world in
      elim (Result-cases r) [
        | inr (x, e) ↦ rw (e, draw_vertical) (inl (refl, refl))
        | inl (b, e) ↦ elim (Bool-cases b) [
          | inl f ↦ rw (e, draw_vertical) (rw f (inr (refl, refl)))
          | inr f ↦ rw (e, draw_vertical) (rw f (draw_horizontal-IsStep c (record s { world = w })))
        ]
      ]

  -- A candidate that is drawn is apart from the blocks drawn before.
  abbrev IsGoodStep : OverlayCandidate → Drawn v → Drawn v → Type 0
  IsGoodStep c s t =
      ((t.drawn ≡ s.drawn) × (t.skipped ≡ s.skipped + 1))
      ⊎ ((t.drawn ≡ c ∷ s.drawn)
          × (t.skipped ≡ s.skipped)
          × All (IsApart c) s.drawn
          × (is_duplicate_nearby_text v.lower c s.drawn ≡ false))

  draw_candidate-IsGoodStep :
      (c : OverlayCandidate) (s : Drawn v) → Found (IsGoodStep c s) (draw_candidate v opts c s)
  unfolding draw_candidate
  draw_candidate-IsGoodStep c s =
      elim (Bool-cases (should_skip_for_overlap c.box (map box_of s.drawn))) [
        | inl e ↦ rw (e, draw_candidate) (inl (refl, refl))
        | inr e ↦ elim (Bool-cases (is_duplicate_nearby_text v.lower c s.drawn)) [
          | inl f ↦ rw (e, draw_candidate) (rw f (inl (refl, refl)))
          | inr f ↦ elim (Bool-cases (v.should_render_vertical_text c.text c.box)) [
            | inl g ↦
                rw (e, draw_candidate)
                  (rw f (
                    rw g (
                      Found-map (IsStep c s) _ (draw_vertical v opts c s) (draw_vertical-IsStep c s)
                        (λ t. good t (not_skipped c s.drawn e) f))))
            | inr g ↦
                rw (e, draw_candidate)
                  (rw f (
                    rw g (
                      Found-map (IsStep c s) _ (draw_horizontal v opts c s)
                        (draw_horizontal-IsStep c s) (λ t. good t (not_skipped c s.drawn e) f))))
          ]
        ]
      ]
    where
      good :
          (t : Drawn v)
          → All (IsApart c) s.drawn
          → is_duplicate_nearby_text v.lower c s.drawn ≡ false
          → IsStep c s t
          → IsGoodStep c s t
      good t a d (inl k) = inl k
      good t a d (inr (k, m)) = inr (k, m, a, d)

  -- A predicate of the candidates holds for what is drawn, which lies apart; and every candidate is drawn or
  -- skipped.
  abbrev pub AreDrawn : (OverlayCandidate → Type 0) → ℕ → Drawn v → Type 0
  AreDrawn P n t = All P t.drawn × AreApart v.lower t.drawn × (length t.drawn + t.skipped ≡ n)

  pub draw_candidates-AreDrawn :
      (P : OverlayCandidate → Type 0) (cs : List OverlayCandidate) (n : ℕ) (s : Drawn v)
      → All P cs
      → AreDrawn P n s
      → Found (AreDrawn P (n + length cs)) (draw_candidates v opts cs s)
  unfolding draw_candidates
  draw_candidates-AreDrawn P [] n s h (a, b, c) = (a, b, omega (arith, c))
  draw_candidates-AreDrawn P (c ∷ cs) n s h k =
      go (draw_candidate v opts c s) (draw_candidate-IsGoodStep c s)
        (λ t m. draw_candidates-AreDrawn P cs (n + 1) t h.1 m)
    where
      next : (t : Drawn v) → IsGoodStep c s t → AreDrawn P (n + 1) t
      next t (inl (e, f)) = (
        subst (All P) (sym e) k.0,
        subst (AreApart v.lower) (sym e) k.1,
        omega (arith, ap length e, f, k.2),
      )
      next t (inr (e, f, a, d)) = (
        subst (All P) (sym e) (h.0, k.0),
        subst (AreApart v.lower) (sym e) (a, d, k.1),
        omega (arith, ap length e, f, k.2),
      )

      go :
          (o : Option (Drawn v))
          → Found (IsGoodStep c s) o
          → ((t : Drawn v)
              → AreDrawn P (n + 1) t
              → Found (AreDrawn P (n + 1 + length cs)) (draw_candidates v opts cs t))
          → Found (AreDrawn P (n + length (c ∷ cs))) (elim o as (λ _. Option (Drawn v)) [
            | none ↦ none
            | some t ↦ draw_candidates v opts cs t
          ])
      go none m others = m
      go (some t) m others =
          Found-map (AreDrawn P (n + 1 + length cs)) (AreDrawn P (n + length (c ∷ cs)))
            (draw_candidates v opts cs t) (others t (next t m))
            (λ u q. (q.0, q.1, omega (arith, q.2)))
