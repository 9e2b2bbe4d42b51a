-- ===== src/Media.antt =====
-- src/domain/media.rs: the renderers that a file can open with.
pub mod Tables
pub mod Classify
mod Examples
use silicon_briefcase.Prelude.{Bool, true, false}

pub data RenderKind : Type 0 where
  image video document spreadsheet presentation audio archive code unsupported : RenderKind

unfoldable is_renderable : RenderKind → Bool
is_renderable unsupported = false
is_renderable _ = true
