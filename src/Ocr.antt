-- ===== src/Ocr.antt =====
-- Text recognition (backend/internal/services).
pub mod Chain
