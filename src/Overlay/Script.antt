-- ===== src/Overlay/Script.antt =====
-- The scripts of a text (backend/internal/services/overlay/font.go): Chinese, Japanese and Korean runes, the runes
-- that the fallback fonts cover, and the runs of a line that one font draws. A rune is a code point.
pub mod Segments
use lok_lingo.Prelude.{
  ℕ, ◌+◌, Bool, true, false, ◌&&◌, ◌||◌, not, List, [], ◌∷◌, ◌++◌, leb, any, all, if◌then◌else◌,
  map,
}
use lok_lingo.Go.Text.{Text, is_empty}

abbrev pub between : ℕ → ℕ → ℕ → Bool
between lo hi r = leb lo r && leb r hi

unfoldable pub is_cjk_rune : ℕ → Bool
is_cjk_rune r =
    between 0x1100 0x11FF r
    || between 0x2E80 0x9FFF r
    || between 0xAC00 0xD7AF r
    || between 0xF900 0xFAFF r
    || between 0x20000 0x2A6DF r

abbrev pub is_all_cjk : Text → Bool
is_all_cjk s = not (is_empty s) && all is_cjk_rune s

abbrev pub is_cjk_last_rune : Text → Bool
is_cjk_last_rune [] = false
is_cjk_last_rune (c ∷ []) = is_cjk_rune c
is_cjk_last_rune (c ∷ d ∷ s) = is_cjk_last_rune (d ∷ s)

abbrev pub single_runes : Text → List Text
single_runes = map (λ r. r ∷ [])

-- A word of such runes is as many tokens.
unfoldable pub expand_cjk_tokens : List Text → List Text
expand_cjk_tokens [] = []
expand_cjk_tokens (w ∷ ws) =
    let rest = expand_cjk_tokens ws in (if is_all_cjk w then single_runes w else w ∷ []) ++ rest

unfoldable pub is_fallback_rune : ℕ → Bool
is_fallback_rune r =
    between 0x0600 0x06FF r
    || between 0x0750 0x077F r
    || between 0x08A0 0x08FF r
    || between 0x0590 0x05FF r
    || between 0x0900 0x097F r
    || between 0x0980 0x09FF r
    || between 0x0A00 0x0A7F r
    || between 0x0A80 0x0AFF r
    || between 0x0B00 0x0B7F r
    || between 0x0B80 0x0BFF r
    || between 0x0C00 0x0C7F r
    || between 0x0C80 0x0CFF r
    || between 0x0D00 0x0D7F r
    || between 0x0E00 0x0E7F r
    || between 0x1100 0x11FF r
    || between 0x2E80 0x2EFF r
    || between 0x3000 0x9FFF r
    || between 0xA000 0xA4CF r
    || between 0xAC00 0xD7AF r
    || between 0xF900 0xFAFF r
    || between 0x20000 0x2A6DF r

unfoldable pub needs_fallback_font : Text → Bool
needs_fallback_font s = any is_fallback_rune s

unfoldable pub is_rtl_rune : ℕ → Bool
is_rtl_rune r =
    between 0x0590 0x05FF r
    || between 0x0600 0x06FF r
    || between 0x0750 0x077F r
    || between 0x08A0 0x08FF r
    || between 0xFB1D 0xFB4F r
    || between 0xFB50 0xFDFF r
    || between 0xFE70 0xFEFF r

pub record ScriptSegment : Type 0 where
  pub text : Text
  pub use_system : Bool

abbrev pub same_bool : Bool → Bool → Bool
same_bool true b = b
same_bool false b = not b

-- The segments from here on, where `run` is the segment so far and `cur` its kind.
unfoldable pub segments_from : Text → Bool → Text → List ScriptSegment
segments_from run cur [] = record { text = run; use_system = cur } ∷ []
segments_from run cur (r ∷ rs) = elim (same_bool (is_fallback_rune r) cur) [
  | true ↦ segments_from (run ++ r ∷ []) cur rs
  | false ↦ record { text = run; use_system = cur } ∷ segments_from (r ∷ []) (is_fallback_rune r) rs
]

unfoldable pub split_into_script_segments : Text → List ScriptSegment
split_into_script_segments [] = []
split_into_script_segments (r ∷ rs) = segments_from (r ∷ []) (is_fallback_rune r) rs

-- measureLinePx, for the width of a segment in its font; a segment whose font cannot be loaded adds nothing.
unfoldable pub measure_segments : (ScriptSegment → ℕ) → List ScriptSegment → ℕ
measure_segments width [] = 0
measure_segments width (g ∷ gs) = width g + measure_segments width gs

abbrev pub measure_line_px : (ScriptSegment → ℕ) → Text → ℕ
measure_line_px width line = measure_segments width (split_into_script_segments line)
