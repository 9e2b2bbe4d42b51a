-- ===== src/Filter.antt =====
-- The entry filter language (src/domain/filter.rs).
pub mod Expression
pub mod Lexer
pub mod Terms
pub mod Glob
pub mod State
pub mod Conditions
pub mod Parser
mod Examples
