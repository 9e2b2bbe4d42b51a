-- ===== src/Entry/Path.antt =====
-- src/domain/entry.rs: drive-relative paths.
pub mod Normal
pub mod Tree
use silicon_briefcase.Prelude.{
  ℕ, ◌+◌, Bool, not, List, [], ◌∷◌, ◌++◌, Option, none, some, Result, ok, err, ◌>>=◌, map_err, ltb,
  ◌==◌, length, if◌then◌else◌,
}
use silicon_briefcase.Text.{
  Str, trim, trim_matches, byte_len, is_empty, contains_char, split, rsplit_once, str_eq,
}
use silicon_briefcase.Entry.Name.{EntryName, EntryNameError, entry_name, dot}

abbrev pub max_entry_path_bytes : ℕ
max_entry_path_bytes = 2048

pub data EntryPathError : Type 0 where
  empty : EntryPathError
  too_long : ℕ → ℕ → EntryPathError
  segment : EntryNameError → EntryPathError

-- An `EntryPath` is a normalized text.
abbrev EntryPath : Type 0
EntryPath = Str

abbrev pub is_slash : ℕ → Bool
is_slash c = c == b'/'

-- The loop over the segments.
unfoldable pub push_segments : Str → List Str → Result Str EntryPathError
push_segments normalized [] = ok normalized
push_segments normalized (part ∷ parts) = do
  name ← map_err segment (entry_name part)
  push_segments (if is_empty normalized then name else normalized ++ b'/' ∷ name) parts

unfoldable pub check_length : Str → Result EntryPath EntryPathError
check_length path =
    if ltb max_entry_path_bytes (byte_len path)
    then err (too_long (byte_len path) max_entry_path_bytes)
    else ok path

-- `EntryPath::new`.
unfoldable pub entry_path : Str → Result EntryPath EntryPathError
entry_path value =
    let trimmed = trim (trim_matches is_slash (trim value)) in
    if is_empty trimmed
    then err empty
    else (do normalized ← push_segments [] (split b'/' trimmed); check_length normalized)

abbrev pub drive_root : EntryPath
drive_root = dot

unfoldable pub is_drive_root : EntryPath → Bool
is_drive_root path = str_eq path drive_root

unfoldable pub join : EntryPath → EntryName → Result EntryPath EntryPathError
unfolding check_length
join path name = if is_drive_root path then ok name else check_length (path ++ b'/' ∷ name)

unfoldable pub segments : EntryPath → List Str
segments path = split b'/' path

abbrev first_or : Str → List Str → Str
first_or d [] = d
first_or d (p ∷ ps) = p

unfoldable root_segment : EntryPath → Str
root_segment path = first_or path (split b'/' path)

abbrev after_last : Str → Option (Str × Str) → Str
after_last path none = path
after_last path (some (before, after)) = after

-- `rsplit('/').next()`: what follows the last slash.
unfoldable pub name : EntryPath → Str
name path = after_last path (rsplit_once b'/' path)

unfoldable pub depth : EntryPath → ℕ
depth path = length (split b'/' path)

unfoldable is_root : EntryPath → Bool
is_root path = not (contains_char b'/' path)

abbrev before_last : Option (Str × Str) → Option EntryPath
before_last none = none
before_last (some (before, after)) = some before

unfoldable pub parent : EntryPath → Option EntryPath
parent path = before_last (rsplit_once b'/' path)
