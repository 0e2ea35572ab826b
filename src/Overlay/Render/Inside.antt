-- ===== src/Overlay/Render/Inside.antt =====
-- The blocks that DrawTextOnImageWithOptions draws (backend/internal/services/overlay/render.go).
use mathlib.Core.Path.{subst}
use lok_lingo.Prelude.{
  ℕ, suc, ◌+◌, ◌≤◌, ◌≡◌, refl, ap, ◌∙◌, inl, inr, Bool, true, false, List, [], ◌∷◌, All, none, some,
  Bool-cases, arith, if◌then◌else◌, length,
}
use lok_lingo.Prelude.Int.{ℤ, pos, negsuc, pos_part}
use lok_lingo.Go.Text.{Text, is_empty, trim_space}
use lok_lingo.Overlay.Options.{OverlayOptions}
use lok_lingo.Overlay.Wrap.Content.{Found, IsSplitter}
use lok_lingo.Overlay.Boxes.{
  Rectangle, OverlayCandidate, clamp_to_bounds, shrunk, is_drawable, comes_before, insert_candidate,
  sort_overlay_candidates,
}
use lok_lingo.Overlay.Render.{
  ImageTextBlock, checked_options, drawable_box, add_candidate, collect, Canvas, draw_blocks,
}
use lok_lingo.Overlay.Render.Apart.{IsInside, AreDrawn, draw_candidates-AreDrawn}

insert_candidate-All :
    (P : OverlayCandidate → Type 0) (x : OverlayCandidate) (ys : List OverlayCandidate)
    → P x
    → All P ys
    → All P (insert_candidate x ys)
unfolding insert_candidate
insert_candidate-All P x [] h k = (h, tt)
insert_candidate-All P x (y ∷ ys) h k = elim (Bool-cases (comes_before y x)) [
  | inl e ↦ rw (e, insert_candidate) (k.0, insert_candidate-All P x ys h k.1)
  | inr e ↦ rw (e, insert_candidate) (h, k)
]

insert_candidate-length :
    (x : OverlayCandidate) (ys : List OverlayCandidate)
    → length (insert_candidate x ys) ≡ suc (length ys)
unfolding insert_candidate
insert_candidate-length x [] = refl
insert_candidate-length x (y ∷ ys) = elim (Bool-cases (comes_before y x)) [
  | inl e ↦ rw (e, insert_candidate) (ap suc (insert_candidate-length x ys))
  | inr e ↦ rw (e, insert_candidate) refl
]

sort-All :
    (P : OverlayCandidate → Type 0) (xs : List OverlayCandidate)
    → All P xs
    → All P (sort_overlay_candidates xs)
unfolding sort_overlay_candidates
sort-All P [] h = tt
sort-All P (x ∷ xs) h = insert_candidate-All P x _ h.0 (sort-All P xs h.1)

sort-length : (xs : List OverlayCandidate) → length (sort_overlay_candidates xs) ≡ length xs
unfolding sort_overlay_candidates
sort-length [] = refl
sort-length (x ∷ xs) = insert_candidate-length x _ ∙ ap suc (sort-length xs)

clamp-bound : (x : ℤ) (n : ℕ) → clamp_to_bounds x 0 n ≤ n
clamp-bound (negsuc x) n = omega arith
clamp-bound (pos x) n = ground arith

module _ (width height : ℕ) where
  IsInside-shrunk :
      (n x1 y1 x2 y2 : ℕ) (t o region : Text)
      → x2 ≤ width
      → y2 ≤ height
      → let r = shrunk n (record { min_x = x1; min_y = y1; max_x = x2; max_y = y2 }) in
        is_drawable r ≡ true
        → IsInside width height
            (record { box = r; text = t; original_text = o; region_class = region })
  IsInside-shrunk n x1 y1 x2 y2 t o region h k e = ground (arith, e, h, k)

  added-IsInside :
      (text : Text) (b : ImageTextBlock) (shrink : ℤ) (rest : List OverlayCandidate) (bbox : List ℤ)
      → All (IsInside width height) rest
      → All
          (IsInside width height)
          (add_candidate text b (drawable_box width height shrink bbox) rest)
  unfolding drawable_box
  added-IsInside text b shrink rest [] h = h
  added-IsInside text b shrink rest (x1 ∷ []) h = h
  added-IsInside text b shrink rest (x1 ∷ y1 ∷ []) h = h
  added-IsInside text b shrink rest (x1 ∷ y1 ∷ x2 ∷ []) h = h
  added-IsInside text b shrink rest (x1 ∷ y1 ∷ x2 ∷ y2 ∷ z ∷ zs) h = h
  added-IsInside text b shrink rest (x1 ∷ y1 ∷ x2 ∷ y2 ∷ []) h =
      let r : Rectangle = record {
        min_x = clamp_to_bounds x1 0 width;
        min_y = clamp_to_bounds y1 0 height;
        max_x = clamp_to_bounds x2 0 width;
        max_y = clamp_to_bounds y2 0 height;
      } in
      added_if (shrunk (pos_part shrink) r) (is_drawable (shrunk (pos_part shrink) r)) (λ e.
        IsInside-shrunk (pos_part shrink) r.min_x r.min_y r.max_x r.max_y text b.text b.region_class
          (clamp-bound x2 width) (clamp-bound y2 height) e)
    where
      added_if :
          (r : Rectangle) (d : Bool)
          → (d ≡ true
              → IsInside width height (record {
                box = r;
                text = text;
                original_text = b.text;
                region_class = b.region_class;
              }))
          → All (IsInside width height) (add_candidate text b (if d then some r else none) rest)
      added_if r true k = (k refl, h)
      added_if r false k = h

  collect-AllInside :
      (shrink : ℤ) (blocks : List ImageTextBlock) (texts : List Text)
      → All (IsInside width height) (collect width height shrink blocks texts)
  unfolding collect
  collect-AllInside shrink [] texts = tt
  collect-AllInside shrink (b ∷ bs) [] = tt
  collect-AllInside shrink (b ∷ bs) (t ∷ ts) =
      let rest = collect-AllInside shrink bs ts in
      elim (Bool-cases (is_empty (trim_space t))) [
        | inl e ↦ rw (e, collect) rest
        | inr e ↦ rw (e, collect) (added-IsInside (trim_space t) b shrink _ b.bbox rest)
      ]

-- For fonts whose splits lose nothing and cut something off, drawing the blocks of an image ends. Every candidate is drawn or
-- skipped. A block that is drawn has a box inside the image, 24 pixels wide and high or more, of which the box
-- of each block drawn before it covers less than 0.45, and it repeats the text of none of these that is nearby.
pub draw_blocks-AreDrawn :
    (v : Canvas) (opts : OverlayOptions) (width height : ℕ) (blocks : List ImageTextBlock)
    (texts : List Text) (w : v.World)
    (splits : (t : Text) (size : ℕ)
      → IsSplitter ((v.typeface t).measure size) ((v.typeface t).split size))
    → let o = checked_options opts in
      Found
        (AreDrawn v o splits
          (IsInside width height)
          (length (collect width height o.bbox_shrink_px blocks texts)))
        (draw_blocks v opts width height blocks texts w)
unfolding draw_blocks
draw_blocks-AreDrawn v opts width height blocks texts w splits =
    let o = checked_options opts in
    let cs = collect width height o.bbox_shrink_px blocks texts in
    subst
      (λ n.
        Found (AreDrawn v o splits (IsInside width height) n)
          (draw_blocks v opts width height blocks texts w))
      (plus cs)
      (draw_candidates-AreDrawn v o splits (IsInside width height) (sort_overlay_candidates cs) 0 _
        (sort-All (IsInside width height) cs
          (collect-AllInside width height o.bbox_shrink_px blocks texts))
        (tt, tt, refl))
  where
    plus : (cs : List OverlayCandidate) → 0 + length (sort_overlay_candidates cs) ≡ length cs
    plus cs = omega (arith, sort-length cs)
