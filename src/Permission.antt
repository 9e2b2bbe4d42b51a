-- ===== src/Permission.antt =====
-- Who may do what with an entry (src/domain/permission.rs).
pub mod Rights
pub mod Capability
pub mod Grant
pub mod Policy
mod Examples
