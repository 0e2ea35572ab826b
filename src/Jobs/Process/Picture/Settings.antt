-- ===== src/Jobs/Process/Picture/Settings.antt =====
-- The options with which Worker.process has an image drawn (backend/jobs/worker.go, translate.go).
use lok_lingo.Prelude.{suc, ◌%◌, Bool, true, false, ltb, if◌then◌else◌}
use lok_lingo.Prelude.Int.{ℤ, pos, negsuc}
use lok_lingo.Overlay.Options.{OverlayOptions, default_overlay_options, default_studio_options}
use lok_lingo.Jobs.Job.{Job, Mode, layout}

-- applyLayoutModeBBoxOptions
abbrev pub layout_padding : ℤ → ℤ
layout_padding (negsuc n) = pos 3
layout_padding (pos n) = if ltb n 2 then pos 2 else if ltb 4 n then pos 4 else pos n

unfoldable pub apply_layout_mode_bbox_options : ℤ → OverlayOptions → OverlayOptions
apply_layout_mode_bbox_options requested_padding opts = record opts {
  erase_bbox = true;
  bbox_shrink_px = pos 0;
  text_padding = layout_padding requested_padding;
  patch_feather_px = 1;
  patch_blur_radius = 1;
}

abbrev pub is_layout : Mode → Bool
is_layout layout = true
is_layout _ = false

-- if job.JPEGQuality > 0, job.BgAlpha >= 0 (as uint8), job.TextPadding >= 0
abbrev pub with_quality : ℤ → OverlayOptions → OverlayOptions
with_quality (pos (suc n)) opts = record opts { jpeg_quality = pos (suc n) }
with_quality _ opts = opts

abbrev pub with_alpha : ℤ → OverlayOptions → OverlayOptions
with_alpha (pos n) opts = record opts { bg_alpha = n % 256 }
with_alpha (negsuc n) opts = opts

abbrev pub with_padding : ℤ → OverlayOptions → OverlayOptions
with_padding (pos n) opts = record opts { text_padding = pos n }
with_padding (negsuc n) opts = opts

unfoldable pub overlay_options : Job → OverlayOptions
overlay_options j =
    with_padding j.text_padding
      (with_alpha j.bg_alpha (with_quality j.jpeg_quality default_overlay_options))

unfoldable pub render_options : Mode → Job → OverlayOptions
render_options layout j = with_alpha j.bg_alpha (
    with_quality j.jpeg_quality
      (apply_layout_mode_bbox_options j.text_padding default_studio_options))
render_options _ j = overlay_options j
