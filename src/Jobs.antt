-- ===== src/Jobs.antt =====
-- backend/jobs: the worker's pipeline, its retries and its store.
pub mod Normalize
pub mod Chunks
pub mod Translate
pub mod Job
pub mod Failures
pub mod Redis
pub mod Store
pub mod Process
pub mod Loop
pub mod Options
