-- ===== src/Entry.antt =====
-- Entries of a drive: their kinds, names and paths (src/domain/entry.rs).
pub mod Kind
pub mod Name
pub mod Path
mod Examples
