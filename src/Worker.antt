-- ===== src/Worker.antt =====
-- internal/worker/worker.go.
pub mod Events
pub mod Config
pub mod Attempt
pub mod Completion
