-- ===== src/Jobs/Process/PageCount.antt =====
-- The pages that a job counts as processed in Worker.process (backend/jobs/worker.go).
pub mod Reached
pub mod Translation
pub mod Whole
