-- ===== src/Engine.antt =====
-- internal/engine: which resources run, the run, and its exit code.
pub mod Run
pub mod Filter
pub mod Report
pub mod Build
