-- ===== src/Examples.antt =====
-- Tests, and the theorems at concrete inputs.
mod Normalize
mod Chunks
mod Translate
mod Failures
mod Memory
mod Redis
mod Services
mod Texts
mod Loop
mod Ocr
mod Middleware
mod Handlers
mod Process
mod Pages
mod Overlay
