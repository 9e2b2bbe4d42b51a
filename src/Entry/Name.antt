-- ===== src/Entry/Name.antt =====
-- src/domain/entry.rs: entry names.
pub mod Valid
use silicon_briefcase.Prelude.{ℕ, Bool, ◌||◌, List, [], ◌∷◌, Result, ok, err, ltb, if◌then◌else◌}
use silicon_briefcase.Text.{Str, trim, byte_len, is_empty, contains_char, str_eq}

abbrev pub max_entry_name_bytes : ℕ
max_entry_name_bytes = 255

pub data EntryNameError : Type 0 where
  empty contains_nul contains_slash reserved : EntryNameError
  too_long : ℕ → ℕ → EntryNameError

-- An `EntryName` is a validated text.
abbrev pub EntryName : Type 0
EntryName = Str

abbrev pub dot : Str
dot = b'.' ∷ []

abbrev pub dot_dot : Str
dot_dot = b'.' ∷ b'.' ∷ []

-- The checks on a trimmed name.
unfoldable pub check_name : Str → Result EntryName EntryNameError
check_name trimmed =
    if is_empty trimmed
    then err empty
    else if ltb max_entry_name_bytes (byte_len trimmed)
    then err (too_long (byte_len trimmed) max_entry_name_bytes)
    else if contains_char 0 trimmed
    then err contains_nul
    else if contains_char b'/' trimmed
    then err contains_slash
    else if str_eq trimmed dot || str_eq trimmed dot_dot
    then err reserved
    else ok trimmed

-- `EntryName::new`.
unfoldable pub entry_name : Str → Result EntryName EntryNameError
entry_name value = check_name (trim value)
