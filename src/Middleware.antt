-- ===== src/Middleware.antt =====
-- The HTTP middleware (backend/middleware).
pub mod Auth
pub mod Gate
