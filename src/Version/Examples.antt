-- ===== src/Version/Examples.antt =====
-- The largest version number (src/domain/version.rs).
use silicon_briefcase.Prelude.{ℕ}

abbrev last : ℕ
last = 18446744073709551615
