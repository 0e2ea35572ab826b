-- ===== src/Overlay/Layout.antt =====
-- The size of a text in its box (backend/internal/services/overlay/draw.go): the largest font size at which its lines
-- fit, tried from above. The floating-point products of a size or a height are operations of the typeface; a
-- number of pixels that is not positive is 0.
pub mod Sizes
pub mod Largest
pub mod Total
use lok_lingo.Prelude.{
  ℕ, zero, suc, ◌+◌, ◌-◌, ◌*◌, ◌/◌, min, max, Bool, true, false, ◌&&◌, ◌||◌, List, [], ◌∷◌, Option,
  none, some, ltb, leb, ◌==◌, if◌then◌else◌, length,
}
use lok_lingo.Go.Text.{Text, is_empty}
use lok_lingo.Overlay.Wrap.{strings_trim_space, no_lines, wrap_lines, truncate_with_ellipsis}

pub record Typeface : Type 0 where
  -- measureLinePx at a font size, and the split of a word that does not fit
  pub measure : ℕ → Text → ℕ
  pub split : ℕ → Text → ℕ → Text × Text
  -- int(math.Round(float64(n) * c)) for c of 1.18, 0.10, 0.82 and 1.03
  pub line_target : ℕ → ℕ
  pub inset_target : ℕ → ℕ
  pub ascent_target : ℕ → ℕ
  pub tolerated_height : ℕ → ℕ

pub record TextLayout : Type 0 where
  pub font_size : ℕ
  pub line_height : ℕ
  pub top_inset : ℕ
  pub lines : List Text

abbrev pub no_layout : TextLayout
no_layout = record { font_size = 0; line_height = 0; top_inset = 0; lines = [] }

abbrev pub overlay_line_spacing : ℕ
overlay_line_spacing = 2

module _ (f : Typeface) where
  unfoldable pub approximate_line_height : ℕ → ℕ
  approximate_line_height zero = 1
  approximate_line_height (suc n) =
      let size = suc n in
      let target = f.line_target size in
      if ltb target (size + overlay_line_spacing)
      then size + overlay_line_spacing
      else if ltb (size + 9) target
      then size + 9
      else target

  unfoldable pub approximate_top_inset : ℕ → ℕ
  approximate_top_inset size = max 1 (f.inset_target size)

  unfoldable pub approximate_ascent : ℕ → ℕ
  approximate_ascent zero = 1
  approximate_ascent (suc n) = max 1 (f.ascent_target (suc n))

  -- for one line or more
  abbrev pub block_height : ℕ → ℕ → ℕ
  block_height size n_lines =
      approximate_top_inset size
      + approximate_ascent size
      + (n_lines - 1) * approximate_line_height size

  abbrev pub layout_of : ℕ → List Text → TextLayout
  layout_of size lines = record {
    font_size = size;
    line_height = approximate_line_height size;
    top_inset = approximate_top_inset size;
    lines = lines;
  }

  module _ (text : Text) (max_width max_height : ℕ) where
    abbrev pub lines_at : ℕ → Option (List Text)
    lines_at size = wrap_lines (f.measure size) (f.split size) text max_width

    abbrev pub fits_at : ℕ → List Text → Bool
    fits_at size lines = leb (block_height size (length lines)) (f.tolerated_height max_height)

    -- The lines fit at a size; the next larger size is taken if it has as many lines, and they fit.
    unfoldable pub enlarge : ℕ → ℕ → List Text → Option TextLayout
    enlarge max_font_size size lines =
        if ltb size max_font_size
        then elim (lines_at (size + 1)) [
          | none ↦ none
          | some larger ↦
              if length larger == length lines && fits_at (size + 1) larger
              then some (layout_of (size + 1) larger)
              else some (layout_of size lines)
        ]
        else some (layout_of size lines)

    -- The sizes from `min_font_size` on, so many, from the largest down.
    unfoldable pub try_sizes : ℕ → ℕ → ℕ → Option (Option TextLayout)
    try_sizes min_font_size max_font_size zero = some none
    try_sizes min_font_size max_font_size (suc n) =
        let size = min_font_size + n in
        let rest = try_sizes min_font_size max_font_size n in
        elim (lines_at size) [
          | none ↦ none
          | some lines ↦
              if no_lines lines
              then rest
              else if fits_at size lines
              then elim (enlarge max_font_size size lines) [ none ↦ none | some l ↦ some (some l) ]
              else rest
        ]

    abbrev pub max_lines_at : ℕ → ℕ
    max_lines_at size = max 1 (
        (f.tolerated_height max_height - approximate_top_inset size - approximate_ascent size)
          / approximate_line_height size
        + 1)

    -- When no size fits: as many lines of the smallest as there is room for.
    unfoldable pub smallest : ℕ → Option TextLayout
    smallest size = elim (lines_at size) [
      | none ↦ none
      | some lines ↦ some (
          layout_of size (
            if ltb (max_lines_at size) (length lines)
            then truncate_with_ellipsis (f.measure size) lines (max_lines_at size) max_width
            else lines))
    ]

    abbrev pub start_size : ℕ → ℕ → ℕ
    start_size min_font_size max_font_size = min max_font_size (max min_font_size max_height)

    unfoldable pub fit_sizes : ℕ → ℕ → Option TextLayout
    fit_sizes min_font_size max_font_size =
        let start = start_size min_font_size max_font_size in
        elim (try_sizes min_font_size max_font_size (start + 1 - min_font_size)) [
          | none ↦ none
          | some found ↦ elim found [ some l ↦ some l | none ↦ smallest min_font_size ]
        ]

    -- `none` is a text whose lines are never done.
    unfoldable pub fit_text_layout : ℕ → ℕ → Option TextLayout
    fit_text_layout min_font_size max_font_size =
        if is_empty (strings_trim_space text) || max_width == 0 || max_height == 0
        then some no_layout
        else fit_sizes min_font_size max_font_size
