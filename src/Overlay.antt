-- ===== src/Overlay.antt =====
-- backend/internal/services/overlay: the options of the renderer, and where it puts the lines of a text.
pub mod Options
pub mod Script
pub mod Wrap
pub mod Layout
pub mod Boxes
pub mod Render
