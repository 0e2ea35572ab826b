-- ===== src/Overlay/Render.antt =====
-- The blocks that are drawn on an image (DrawTextOnImageWithOptions in backend/internal/services/overlay/render.go):
-- the candidates, and the loop that draws or skips each. The image, its fonts and the painting are the
-- record Canvas.
pub mod Apart
pub mod Inside
use lok_lingo.Prelude.{
  ℕ, zero, suc, ◌+◌, ◌-◌, ◌*◌, Bool, true, false, ◌&&◌, ◌||◌, List, [], ◌∷◌, map, Option, none,
  some, ltb, if◌then◌else◌,
}
use lok_lingo.Prelude.Int.{ℤ, pos, negsuc, pos_part}
use lok_lingo.Go.Text.{Text, codes, text_eq, is_empty, trim_space}
use lok_lingo.Go.Failure.{GoError, Result, ok, err}
use lok_lingo.Overlay.Options.{OverlayOptions, overlay_max_font_size, overlay_min_font_size}
use lok_lingo.Overlay.Boxes.{
  Rectangle, OverlayCandidate, clamp_to_bounds, shrunk, is_drawable, dx, dy,
  should_skip_for_overlap, is_duplicate_nearby_text, sort_overlay_candidates,
}
use lok_lingo.Overlay.Wrap.{no_lines}
use lok_lingo.Overlay.Layout.{Typeface, TextLayout, fit_text_layout}

-- A block, with the rounded numbers of its box.
pub record ImageTextBlock : Type 0 where
  pub text : Text
  pub bbox : List ℤ
  pub region_class : Text

abbrev pub or_positive : ℕ → ℕ → ℕ
or_positive zero default = default
or_positive (suc n) default = suc n

abbrev pub in_quality : ℤ → ℤ
in_quality (negsuc n) = pos 90
in_quality (pos zero) = pos 90
in_quality (pos (suc n)) = if ltb 100 (suc n) then pos 90 else pos (suc n)

abbrev pub padding_of : ℤ → ℕ
padding_of (negsuc n) = 6
padding_of (pos n) = n

unfoldable pub checked_options : OverlayOptions → OverlayOptions
checked_options opts = record opts {
  text_padding = pos (padding_of opts.text_padding);
  max_font_size = or_positive opts.max_font_size overlay_max_font_size;
  min_font_size = or_positive opts.min_font_size overlay_min_font_size;
  jpeg_quality = in_quality opts.jpeg_quality;
}

-- The box of a block in an image of this width and height, when it can be drawn in.
unfoldable pub drawable_box : ℕ → ℕ → ℤ → List ℤ → Option Rectangle
drawable_box width height shrink (x1 ∷ y1 ∷ x2 ∷ y2 ∷ []) =
    let r = shrunk (pos_part shrink) (record {
      min_x = clamp_to_bounds x1 0 width;
      min_y = clamp_to_bounds y1 0 height;
      max_x = clamp_to_bounds x2 0 width;
      max_y = clamp_to_bounds y2 0 height;
    }) in
    if is_drawable r then some r else none
drawable_box width height shrink _ = none

abbrev pub add_candidate :
    Text → ImageTextBlock → Option Rectangle → List OverlayCandidate → List OverlayCandidate
add_candidate text b none rest = rest
add_candidate text b (some r) rest =
    record { box = r; text = text; original_text = b.text; region_class = b.region_class } ∷ rest

unfoldable pub collect : ℕ → ℕ → ℤ → List ImageTextBlock → List Text → List OverlayCandidate
collect width height shrink (b ∷ bs) (t ∷ ts) =
    let rest = collect width height shrink bs ts in
    if is_empty (trim_space t)
    then rest
    else add_candidate (trim_space t) b (drawable_box width height shrink b.bbox) rest
collect width height shrink _ _ = []

-- if opts.StudioMode { switch candidate.regionClass ... }
abbrev pub block_max_font_size : OverlayOptions → Text → ℕ
block_max_font_size opts region =
    if opts.studio_mode
    then (if text_eq region (codes "title")
        then opts.max_font_size + opts.title_font_boost
        else if text_eq region (codes "heading")
        then opts.max_font_size + opts.heading_font_boost
        else opts.max_font_size)
    else opts.max_font_size

pub record Canvas : Type 1 where
  pub World : Type 0
  pub lower : Text → Text
  -- the fonts for a text
  pub typeface : Text → Typeface
  -- shouldRenderVerticalText, by a ratio of floating-point numbers
  pub should_render_vertical_text : Text → Rectangle → Bool
  pub draw_vertical_text_block : OverlayCandidate → OverlayOptions → World → Result Bool × World
  pub face_for_text : Text → ℕ → World → Option GoError × World
  -- the style, the ink, the patch under the text and its lines
  pub paint : OverlayCandidate → TextLayout → OverlayOptions → World → World

-- The blocks that are drawn, the newest first, and the number of those skipped.
pub record Drawn (v : Canvas) : Type 0 where
  pub drawn : List OverlayCandidate
  pub skipped : ℕ
  pub world : v.World

abbrev pub box_of : OverlayCandidate → Rectangle
box_of c = c.box

module _ (v : Canvas) (opts : OverlayOptions) where
  abbrev pub skip : v.World → Drawn v → Drawn v
  skip w s = record s { skipped = s.skipped + 1; world = w }

  abbrev pub draw : OverlayCandidate → v.World → Drawn v → Drawn v
  draw c w s = record s { drawn = c ∷ s.drawn; world = w }

  abbrev pub layout_for : OverlayCandidate → Option TextLayout
  layout_for c =
      let pad = padding_of opts.text_padding in
      fit_text_layout (v.typeface c.text) c.text (dx c.box - pad * 2) (dy c.box - pad * 2)
        opts.min_font_size (block_max_font_size opts c.region_class)

  abbrev pub draw_laid_out : OverlayCandidate → TextLayout → Drawn v → Drawn v
  draw_laid_out c l s =
      let (refused, w) = v.face_for_text c.text l.font_size s.world in
      if no_lines l.lines
      then skip s.world s
      else elim refused [ some e ↦ skip w s | none ↦ draw c (v.paint c l opts w) s ]

  -- `none` is a text whose lines are never done.
  unfoldable pub draw_horizontal : OverlayCandidate → Drawn v → Option (Drawn v)
  draw_horizontal c s = elim (layout_for c) [ none ↦ none | some l ↦ some (draw_laid_out c l s) ]

  unfoldable pub draw_vertical : OverlayCandidate → Drawn v → Option (Drawn v)
  draw_vertical c s =
      let (r, w) = v.draw_vertical_text_block c opts s.world in
      elim r [
        | err e ↦ some (skip w s)
        | ok drew ↦ if drew then some (draw c w s) else draw_horizontal c (record s { world = w })
      ]

  unfoldable pub draw_candidate : OverlayCandidate → Drawn v → Option (Drawn v)
  draw_candidate c s =
      if should_skip_for_overlap c.box (map box_of s.drawn)
      then some (skip s.world s)
      else if is_duplicate_nearby_text v.lower c s.drawn
      then some (skip s.world s)
      else if v.should_render_vertical_text c.text c.box
      then draw_vertical c s
      else draw_horizontal c s

  unfoldable pub draw_candidates : List OverlayCandidate → Drawn v → Option (Drawn v)
  draw_candidates [] s = some s
  draw_candidates (c ∷ cs) s = elim (draw_candidate c s) [
    | none ↦ none
    | some t ↦ draw_candidates cs t
  ]

-- The blocks that are drawn on an image of this width and height.
unfoldable pub draw_blocks :
    (v : Canvas)
    → OverlayOptions
    → ℕ
    → ℕ
    → List ImageTextBlock
    → List Text
    → v.World
    → Option (Drawn v)
draw_blocks v opts width height blocks texts w =
    let o = checked_options opts in
    draw_candidates v o
      (sort_overlay_candidates (collect width height o.bbox_shrink_px blocks texts))
      (record { drawn = []; skipped = 0; world = w })
