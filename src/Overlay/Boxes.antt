-- ===== src/Overlay/Boxes.antt =====
-- The boxes of the blocks of an image (backend/internal/services/overlay/util.go, layout.go). The corner of an image
-- is 0, 0, and so coordinates inside it are natural numbers.
use lok_lingo.Prelude.{
  ℕ, ◌+◌, ◌-◌, ◌*◌, min, max, Bool, ◌&&◌, ◌||◌, not, List, [], ◌∷◌, any, ltb, leb, ◌==◌,
  if◌then◌else◌,
}
use lok_lingo.Prelude.Int.{ℤ, pos, negsuc}
use lok_lingo.Go.Text.{Text, text_eq, is_empty, contains, fields, join}

-- image.Rectangle
pub record Rectangle : Type 0 where
  pub min_x : ℕ
  pub min_y : ℕ
  pub max_x : ℕ
  pub max_y : ℕ

abbrev pub overlay_min_draw_width : ℕ
overlay_min_draw_width = 24

abbrev pub overlay_min_draw_height : ℕ
overlay_min_draw_height = 24

abbrev pub overlay_nearby_box_dist : ℕ
overlay_nearby_box_dist = 30

abbrev pub clamp_to_bounds : ℤ → ℕ → ℕ → ℕ
clamp_to_bounds (negsuc v) min_v max_v = min_v
clamp_to_bounds (pos v) min_v max_v =
    if ltb v min_v then min_v else if ltb max_v v then max_v else v

abbrev pub shrunk : ℕ → Rectangle → Rectangle
shrunk n r = record {
  min_x = r.min_x + n;
  min_y = r.min_y + n;
  max_x = r.max_x - n;
  max_y = r.max_y - n;
}

abbrev pub is_drawable : Rectangle → Bool
is_drawable r =
    not (leb r.max_x r.min_x || leb r.max_y r.min_y)
    && not (
        ltb (r.max_x - r.min_x) overlay_min_draw_width
        || ltb (r.max_y - r.min_y) overlay_min_draw_height)

-- image.Rectangle.Dx, Dy and Intersect; an empty rectangle has no width or no height.
abbrev pub dx : Rectangle → ℕ
dx r = r.max_x - r.min_x

abbrev pub dy : Rectangle → ℕ
dy r = r.max_y - r.min_y

abbrev pub rect_area : Rectangle → ℕ
rect_area r = dx r * dy r

abbrev pub intersect : Rectangle → Rectangle → Rectangle
intersect a b = record {
  min_x = max a.min_x b.min_x;
  min_y = max a.min_y b.min_y;
  max_x = min a.max_x b.max_x;
  max_y = min a.max_y b.max_y;
}

-- An overlap of 0.45 of the candidate's area.
abbrev pub overlaps : Rectangle → Rectangle → Bool
overlaps candidate box =
    let overlap = rect_area (intersect candidate box) in
    not (overlap == 0) && leb (rect_area candidate * 45) (overlap * 100)

unfoldable pub should_skip_for_overlap : Rectangle → List Rectangle → Bool
should_skip_for_overlap candidate existing =
    (rect_area candidate == 0) || any (overlaps candidate) existing

-- How far the first interval lies before the second or behind it.
abbrev pub gap : ℕ → ℕ → ℕ → ℕ → ℕ
gap min1 max1 min2 max2 =
    if ltb max1 min2 then min2 - max1 else if ltb max2 min1 then min1 - max2 else 0

unfoldable pub is_nearby_box : Rectangle → Rectangle → ℕ → Bool
is_nearby_box r1 r2 max_dist =
    leb (gap r1.min_x r1.max_x r2.min_x r2.max_x) max_dist
    && leb (gap r1.min_y r1.max_y r2.min_y r2.max_y) max_dist

pub record OverlayCandidate : Type 0 where
  pub box : Rectangle
  pub text : Text
  pub original_text : Text
  pub region_class : Text

-- The comparison of sortOverlayCandidates.
unfoldable pub comes_before : OverlayCandidate → OverlayCandidate → Bool
comes_before a b =
    let area_a = rect_area a.box in
    let area_b = rect_area b.box in
    if not (area_a == area_b)
    then ltb area_b area_a
    else if not (a.box.min_y == b.box.min_y)
    then ltb a.box.min_y b.box.min_y
    else ltb a.box.min_x b.box.min_x

-- sort.SliceStable, by insertion
unfoldable pub insert_candidate : OverlayCandidate → List OverlayCandidate → List OverlayCandidate
insert_candidate x [] = x ∷ []
insert_candidate x (y ∷ ys) =
    let rest = insert_candidate x ys in if comes_before y x then y ∷ rest else x ∷ y ∷ ys

unfoldable pub sort_overlay_candidates : List OverlayCandidate → List OverlayCandidate
sort_overlay_candidates [] = []
sort_overlay_candidates (x ∷ xs) = insert_candidate x (sort_overlay_candidates xs)

-- For strings.ToLower.
module _ (lower : Text → Text) where
  abbrev pub normalize_overlay_text : Text → Text
  normalize_overlay_text s = join (fields (lower s)) (32 ∷ [])

  abbrev pub is_duplicate_of : OverlayCandidate → OverlayCandidate → Bool
  is_duplicate_of candidate d =
      let norm = normalize_overlay_text candidate.text in
      let d_norm = normalize_overlay_text d.text in
      is_nearby_box candidate.box d.box overlay_nearby_box_dist
      && not (is_empty d_norm)
      && (text_eq norm d_norm || contains d_norm norm || contains norm d_norm)

  unfoldable pub is_duplicate_nearby_text : OverlayCandidate → List OverlayCandidate → Bool
  is_duplicate_nearby_text candidate drawn =
      not (is_empty (normalize_overlay_text candidate.text))
      && any (is_duplicate_of candidate) drawn
