-- ===== src/Archive/Examples.antt =====
-- An empty zip archive, and a directory of one entry (src/application/archive_listing.rs).
use silicon_briefcase.Prelude.{
  ℕ, ◌+◌, ◌-◌, ◌≤◌, ◌≡◌, refl, arith, true, false, Option, none, some, List, [], ◌∷◌, length,
}
use silicon_briefcase.Text.{Str, codes, ends_with, str_eq, to_ascii_lowercase}
use silicon_briefcase.Archive.{tar_gz, zip, detect}
use silicon_briefcase.Archive.Zip.{
  ZipDirectory, is_end_record, locate_zip_directory, find_end, u32_at, slice, u16_at,
  read_end_record, directory_before,
}
use silicon_briefcase.Archive.Zip.Inside.{locate_zip_directory-inside}
use silicon_briefcase.Archive.Zip.Entries.{zip_loop, zip_entries, zip_round, read_entry}
use silicon_briefcase.Archive.Zip.Entries.Limits.{zip_loop-enough, zip_entries-bounded}

by_name_test : detect (codes "Backup.TAR.GZ") none ≡ some tar_gz
unfolding detect ends_with str_eq to_ascii_lowercase
by_name_test = refl

by_type_test : detect (codes "x") (some (codes "application/zip")) ≡ some zip
unfolding detect ends_with str_eq to_ascii_lowercase
by_type_test = refl

-- An end record that declares nothing.
abbrev empty_zip : List ℕ
empty_zip =
    0x50 ∷ 0x4b ∷ 5 ∷ 6 ∷ 0 ∷ 0 ∷ 0 ∷ 0 ∷ 0 ∷ 0 ∷ 0 ∷ 0 ∷ 0 ∷ 0 ∷ 0 ∷ 0 ∷ 0 ∷ 0 ∷ 0 ∷ 0 ∷ 0 ∷ 0 ∷ []

abbrev nothing : ZipDirectory
nothing = record { offset = 0; size = 0; entries = 0 }

locate_zip_directory-inside_example :
    (end_at : ℕ) × (is_end_record empty_zip end_at ≡ true)
    × ((later : ℕ)
        → end_at + 1 ≤ later
        → later ≤ length empty_zip - 22
        → is_end_record empty_zip later ≡ false)
    × (0 + 0 ≤ 22 - length empty_zip + end_at)
    × (22 - length empty_zip + end_at + 22 ≤ 22)
unfolding locate_zip_directory find_end is_end_record u32_at slice u16_at read_end_record
    directory_before
locate_zip_directory-inside_example =
    locate_zip_directory-inside empty_zip 22 nothing (omega arith) refl

-- The header of an entry whose name has one letter.
abbrev one_entry : List ℕ
one_entry =
    0x50 ∷ 0x4b ∷ 1 ∷ 2 ∷ 0 ∷ 0 ∷ 0 ∷ 0 ∷ 0 ∷ 0 ∷ 0 ∷ 0 ∷ 0 ∷ 0 ∷ 0 ∷ 0 ∷ 0 ∷ 0 ∷ 0 ∷ 0 ∷ 7 ∷ 0 ∷ 0
    ∷ 0 ∷ 9 ∷ 0 ∷ 0 ∷ 0 ∷ 1 ∷ 0 ∷ 0 ∷ 0 ∷ 0 ∷ 0 ∷ 0 ∷ 0 ∷ 0 ∷ 0 ∷ 0 ∷ 0 ∷ 0 ∷ 0 ∷ 0 ∷ 0 ∷ 0 ∷ 0
    ∷ b'a' ∷ []

abbrev no_datetime : ℕ → ℕ → ℕ → ℕ → ℕ → ℕ → Option ℕ
no_datetime year month day hour minute second = none

abbrev from_unix : ℕ → Option ℕ
from_unix seconds = some seconds

abbrev as_is : List ℕ → Str
as_is bytes = bytes

one_entry_test : length (zip_entries no_datetime from_unix as_is one_entry 1 10).entries ≡ 1
unfolding zip_entries zip_loop zip_round u32_at slice read_entry
one_entry_test = refl

zip_loop-enough_example :
    zip_loop no_datetime from_unix as_is (5 + 47) one_entry 10 0 0
    ≡ zip_loop no_datetime from_unix as_is 47 one_entry 10 0 0
zip_loop-enough_example =
    zip_loop-enough no_datetime from_unix as_is one_entry 10 47 5 0 0 (omega arith)

zip_entries-bounded_example :
    (length (zip_entries no_datetime from_unix as_is one_entry 1 10).entries ≤ 10)
    × ((zip_entries no_datetime from_unix as_is one_entry 1 10).truncated ≡ false
        → 1 ≤ length (zip_entries no_datetime from_unix as_is one_entry 1 10).entries)
zip_entries-bounded_example = zip_entries-bounded no_datetime from_unix as_is one_entry 10 1
