-- ===== src/Overlay/Options.antt =====
-- The options of the renderer (backend/internal/services/overlay/layout.go, font.go).
use lok_lingo.Prelude.{ℕ, ◌+◌, Bool, true, false, []}
use lok_lingo.Prelude.Int.{ℤ, pos}
use lok_lingo.Go.Text.{Text}

pub record OverlayOptions : Type 0 where
  pub bg_alpha : ℕ
  pub max_font_size : ℕ
  pub min_font_size : ℕ
  pub jpeg_quality : ℤ
  pub text_padding : ℤ
  pub bbox_shrink_px : ℤ
  pub patch_feather_px : ℕ
  pub patch_blur_radius : ℕ
  pub erase_bbox : Bool
  pub disable_font_style_detection : Bool
  pub disable_color_sampling : Bool
  pub studio_mode : Bool
  pub texture_aware_fill : Bool
  pub anti_halo_radius : ℕ
  pub title_font_boost : ℕ
  pub heading_font_boost : ℕ
  pub code_font_mono : Bool
  pub region_class : Text

abbrev pub overlay_bg_alpha : ℕ
overlay_bg_alpha = 220

abbrev pub overlay_max_font_size : ℕ
overlay_max_font_size = 32

abbrev pub overlay_min_font_size : ℕ
overlay_min_font_size = 8

abbrev pub default_overlay_options : OverlayOptions
default_overlay_options = record {
  bg_alpha = overlay_bg_alpha;
  max_font_size = overlay_max_font_size;
  min_font_size = overlay_min_font_size;
  jpeg_quality = pos 90;
  text_padding = pos 6;
  bbox_shrink_px = pos 2;
  patch_feather_px = 2;
  patch_blur_radius = 1;
  erase_bbox = true;
  disable_font_style_detection = false;
  disable_color_sampling = false;
  studio_mode = false;
  texture_aware_fill = false;
  anti_halo_radius = 0;
  title_font_boost = 0;
  heading_font_boost = 0;
  code_font_mono = false;
  region_class = [];
}

abbrev pub default_studio_options : OverlayOptions
default_studio_options = record {
  bg_alpha = overlay_bg_alpha;
  max_font_size = overlay_max_font_size + 8;
  min_font_size = overlay_min_font_size;
  jpeg_quality = pos 95;
  text_padding = pos 8;
  bbox_shrink_px = pos 1;
  patch_feather_px = 4;
  patch_blur_radius = 2;
  erase_bbox = true;
  disable_font_style_detection = false;
  disable_color_sampling = false;
  studio_mode = true;
  texture_aware_fill = true;
  anti_halo_radius = 2;
  title_font_boost = 6;
  heading_font_boost = 3;
  code_font_mono = true;
  region_class = [];
}
