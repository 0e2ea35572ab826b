-- ===== src/Observability.antt =====
-- What the backend records about itself (backend/internal/observability).
pub mod Lifecycle
