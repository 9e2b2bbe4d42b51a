-- ===== src/Identity.antt =====
-- Who is calling, and in whose drive (src/domain/actor.rs, src/domain/account.rs).
pub mod Identifier
pub mod Reference
pub mod Account
pub mod Context
mod Examples
