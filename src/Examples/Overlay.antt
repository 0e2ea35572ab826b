-- ===== src/Examples/Overlay.antt =====
-- A font whose runes are ten pixels wide, and an image with three blocks
-- (backend/internal/services/overlay).
use lok_lingo.Prelude.{
  ℕ, ◌+◌, ◌*◌, ◌≤◌, ◌<◌, ◌≡◌, refl, ◌⊎◌, Bool, false, List, [], ◌∷◌, ◌++◌, All, Option, none, some,
  arith, length, take, length-take,
}
use lok_lingo.Prelude.Int.{pos}
use lok_lingo.Go.Text.{
  trim_space, is_space, join, fields, contains, fields_from, has_prefix, Text, codes,
}
use lok_lingo.Go.Failure.{ok}
use lok_lingo.Overlay.Boxes.{
  sort_overlay_candidates, insert_candidate, comes_before, should_skip_for_overlap,
  is_duplicate_nearby_text, is_nearby_box,
}
use lok_lingo.Overlay.Options.{default_overlay_options}
use lok_lingo.Overlay.Script.{expand_cjk_tokens, is_cjk_rune, split_into_script_segments}
use lok_lingo.Overlay.Script.Segments.{Alternates, texts, split_into_script_segments-Alternates}
use lok_lingo.Overlay.Wrap.{
  search, strings_trim_right, strings_trim_left, is_blank, add_word, cut_word, last_two,
  rebalance_wrapped_lines, rebalance_last, strings_fields_from, try_moved, wrap_lines, wrap_tokens,
  wrap_words, fit_word_to_width, wrap_text_to_width,
}
use lok_lingo.Overlay.Wrap.Fit.{IsMonotone, fit_word_to_width-IsLongest}
use lok_lingo.Overlay.Wrap.Spaces.{squeeze, ink}
use lok_lingo.Overlay.Wrap.Content.{Found, IsSplitter, fit_word_to_width-IsSplitter}
use lok_lingo.Overlay.Wrap.Widths.{IsNarrow}
use lok_lingo.Overlay.Wrap.Lines.{wrap_text_to_width-IsWrapped}
use lok_lingo.Overlay.Layout.{
  approximate_ascent, approximate_line_height, approximate_top_inset, enlarge, fit_sizes, try_sizes,
  Typeface, fit_text_layout,
}
use lok_lingo.Overlay.Render.{
  draw_candidates, drawable_box, draw_candidate, draw_horizontal, ImageTextBlock, Canvas, Drawn,
  checked_options, collect, draw_blocks,
}
use lok_lingo.Overlay.Render.Apart.{IsInside, AreDrawn}
use lok_lingo.Overlay.Render.Inside.{draw_blocks-AreDrawn}

abbrev ten_wide : Text → ℕ
ten_wide t = length t * 10

ten_wide-IsMonotone : IsMonotone ten_wide
ten_wide-IsMonotone t m n h = omega (arith, length-take m t, length-take n t, h)

two_runes_fit : fit_word_to_width ten_wide (codes "abcde") 25 ≡ (codes "ab", codes "cde")
unfolding fit_word_to_width search
two_runes_fit = refl

fit_word_to_width-IsLongest_example :
    let (head, tail) = fit_word_to_width ten_wide (codes "abcde") 25 in
    (head ++ tail ≡ codes "abcde")
    × ((ten_wide head ≤ 25) ⊎ (length head ≡ 1))
    × ((k : ℕ)
        → length head < k
        → k ≤ length (codes "abcde")
        → 25 < ten_wide (take k (codes "abcde")))
fit_word_to_width-IsLongest_example =
    fit_word_to_width-IsLongest ten_wide (codes "abcde") 25 ten_wide-IsMonotone (omega arith)

wrap_text_to_width-IsWrapped_example :
    Found
      (λ ls. (ink ls ≡ squeeze (codes "to the harbour")) × All (IsNarrow ten_wide 60) ls)
      (wrap_text_to_width ten_wide (codes "to the harbour") 60)
wrap_text_to_width-IsWrapped_example =
    wrap_text_to_width-IsWrapped ten_wide (codes "to the harbour") 60 refl (omega arith)

split_into_script_segments-Alternates_example :
    (texts (split_into_script_segments (codes "ab漢字c")) ≡ codes "ab漢字c")
    × ((cur : Bool) × Alternates cur (split_into_script_segments (codes "ab漢字c")))
split_into_script_segments-Alternates_example =
    split_into_script_segments-Alternates (codes "ab漢字c")

-- A rune is half as wide as it is high.
abbrev half_wide : ℕ → Text → ℕ
half_wide size t = length t * size

abbrev plain : Typeface
plain = record {
  measure = half_wide;
  split = λ size. fit_word_to_width (half_wide size);
  line_target = λ n. n + 3;
  inset_target = λ n. 1;
  ascent_target = λ n. n;
  tolerated_height = λ n. n + 1;
}

plain-IsSplitter : (size : ℕ) → IsSplitter (plain.measure size) (plain.split size)
plain-IsSplitter size = fit_word_to_width-IsSplitter (half_wide size) (omega arith)

abbrev board : Canvas
board = record {
  World = ℕ;
  lower = λ t. t;
  typeface = λ t. plain;
  should_render_vertical_text = λ t r. false;
  draw_vertical_text_block = λ c opts w. (ok false, w);
  face_for_text = λ t size w. (none, w);
  paint = λ c l opts w. w + 1;
}

abbrev block_at : ℕ → ℕ → ImageTextBlock
block_at x y = record {
  text = codes "hi";
  bbox = pos x ∷ pos y ∷ pos (x + 100) ∷ pos (y + 60) ∷ [];
  region_class = [];
}

-- The second block lies on the first, and the third apart from both.
abbrev three_blocks : List ImageTextBlock
three_blocks = block_at 10 10 ∷ block_at 20 20 ∷ block_at 200 10 ∷ []

abbrev three_texts : List Text
three_texts = codes "uno" ∷ codes "dos" ∷ codes "tres" ∷ []

draw_blocks-AreDrawn_example :
    Found
      (AreDrawn board
        (checked_options default_overlay_options)
        (λ t. plain-IsSplitter)
        (IsInside 400 300)
        (length (
          collect 400 300
            (checked_options default_overlay_options).bbox_shrink_px
            three_blocks
            three_texts)))
      (draw_blocks board default_overlay_options 400 300 three_blocks three_texts 0)
draw_blocks-AreDrawn_example =
    draw_blocks-AreDrawn board default_overlay_options 400 300 three_blocks three_texts 0
      (λ t. plain-IsSplitter)

abbrev counts : {v : Canvas} → Option (Drawn v) → ℕ × ℕ
counts none = (0, 0)
counts (some t) = (length t.drawn, t.skipped)

one_is_skipped :
    counts (draw_blocks board default_overlay_options 400 300 three_blocks three_texts 0) ≡ (2, 1)
unfolding draw_blocks fit_word_to_width search draw_candidates drawable_box draw_candidate
    draw_horizontal sort_overlay_candidates insert_candidate comes_before should_skip_for_overlap
    is_duplicate_nearby_text is_nearby_box trim_space is_space join fields contains fields_from
    has_prefix approximate_ascent approximate_line_height approximate_top_inset enlarge fit_sizes
    try_sizes expand_cjk_tokens is_cjk_rune strings_trim_right strings_trim_left is_blank add_word
    cut_word last_two rebalance_wrapped_lines rebalance_last strings_fields_from try_moved
    wrap_lines wrap_tokens wrap_words collect checked_options fit_text_layout
one_is_skipped = refl
