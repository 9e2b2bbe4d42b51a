-- ===== src/Filter/Glob.antt =====
-- src/domain/filter.rs: the SQL `LIKE` patterns of a term (`GlobTerm`).
pub mod Pieces
use silicon_briefcase.Prelude.{ℕ, Bool, ◌||◌, List, [], ◌∷◌, ◌++◌, ◌==◌, if◌then◌else◌}
use silicon_briefcase.Text.{Str, contains_char, trim_matches, starts_with_char, ends_with_char}
use silicon_briefcase.Filter.Expression.{GlobTerm}

unfoldable has_wildcard : GlobTerm → Bool
has_wildcard term = contains_char b'*' term

-- The match on one character.
abbrev pub escaped_char : ℕ → Str
escaped_char c =
    if c == b'*'
    then b'%' ∷ []
    else if c == b'%' || c == b'_' || c == b'\\'
    then b'\\' ∷ c ∷ []
    else c ∷ []

-- The loop over the characters.
unfoldable pub escaped : Str → Str
escaped [] = []
escaped (c ∷ s) = escaped_char c ++ escaped s

unfoldable pub like_pattern : GlobTerm → Str
like_pattern term =
    (if starts_with_char b'*' term then [] else b'%' ∷ [])
    ++ escaped term
    ++ (if ends_with_char b'*' term then [] else b'%' ∷ [])

unfoldable pub prefix_pattern : GlobTerm → Str
prefix_pattern term =
    let pattern = escaped (trim_matches (λ c. c == b'/') term) in
    if ends_with_char b'%' pattern then pattern else pattern ++ b'%' ∷ []
