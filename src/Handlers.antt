-- ===== src/Handlers.antt =====
-- The HTTP handlers (backend/handlers).
pub mod Validation
