-- ===== src/Worker.antt =====
-- src/worker: the retry policy.
pub mod Policy
