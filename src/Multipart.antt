-- ===== src/Multipart.antt =====
-- Multipart uploads: sizing, completion and the upload session's life (src/domain/multipart.rs).
pub mod Plan
pub mod Completion
pub mod Lifecycle
mod Examples
