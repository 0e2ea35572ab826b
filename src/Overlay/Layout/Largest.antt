-- ===== src/Overlay/Layout/Largest.antt =====
-- fitTextLayout chooses the largest size that fits (backend/internal/services/overlay/draw.go).
use lok_lingo.Prelude.{ℕ, ◌≤◌, ◌<◌, max}
use lok_lingo.Go.Text.{Text}
use lok_lingo.Overlay.Layout.{Typeface, TextLayout}
use lok_lingo.Overlay.Layout.Sizes.{IsTooLarge, IsFitted}

module _ (f : Typeface) (text : Text) (max_width max_height low high : ℕ) where
  -- The sizes above this one, up to the one that is tried first, are too large.
  abbrev pub IsLargest : TextLayout → Type 0
  IsLargest l =
      (low ≤ l.font_size)
      × (l.font_size ≤ high)
      × IsFitted f text max_width max_height low l
      × ((k : ℕ)
          → l.font_size < k
          → k ≤ high
          → k ≤ max low max_height
          → IsTooLarge f text max_width max_height k)
