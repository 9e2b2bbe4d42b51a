-- ===== src/Archive/Zip.antt =====
-- src/application/archive_listing.rs: the directory of a zip archive.
pub mod Entries
pub mod Inside
use silicon_briefcase.Prelude.{
  ℕ, zero, suc, ◌+◌, ◌-◌, ◌*◌, Bool, true, false, not, ◌&&◌, ◌||◌, Option, none, some, List, [],
  ◌∷◌, Result, ok, err, ◌>>=◌, ok_or, leb, ltb, ◌==◌, if◌then◌else◌, take, drop, length,
  checked_sub, u32_mod,
}
use silicon_briefcase.Text.{codes}
use silicon_briefcase.Archive.{ArchiveError, malformed}

pub record ZipDirectory : Type 0 where
  pub offset : ℕ
  pub size : ℕ
  pub entries : ℕ

pub data ZipLocation : Type 0 where
  directory : ZipDirectory → ZipLocation
  zip64_record : ℕ → ZipLocation

-- `bytes.get(at..at + count)`.
unfoldable pub slice : List ℕ → ℕ → ℕ → Option (List ℕ)
slice bytes at count =
    if leb (at + count) (length bytes) then some (take count (drop at bytes)) else none

-- Bytes in little endian order.
abbrev pub little_endian : List ℕ → ℕ
little_endian [] = 0
little_endian (byte ∷ bytes) = byte + 256 * little_endian bytes

abbrev from_slice : Option (List ℕ) → Option ℕ
from_slice none = none
from_slice (some bytes) = some (little_endian bytes)

unfoldable pub u16_at : List ℕ → ℕ → Option ℕ
u16_at bytes at = from_slice (slice bytes at 2)

unfoldable pub u32_at : List ℕ → ℕ → Option ℕ
u32_at bytes at = from_slice (slice bytes at 4)

unfoldable pub u64_at : List ℕ → ℕ → Option ℕ
u64_at bytes at = from_slice (slice bytes at 8)

-- A value is there and is the given one.
abbrev pub is_value : Option ℕ → ℕ → Bool
is_value none expected = false
is_value (some value) expected = value == expected

abbrev fits_comment : List ℕ → ℕ → Option ℕ → Bool
fits_comment tail at none = false
fits_comment tail at (some comment) = leb (at + 22 + comment) (length tail)

unfoldable pub is_end_record : List ℕ → ℕ → Bool
is_end_record tail at =
    is_value (u32_at tail at) 0x06054b50 && fits_comment tail at (u16_at tail (at + 20))

-- The last position, from a number of them down to zero, with an end record.
unfoldable pub find_end : List ℕ → ℕ → Option ℕ
find_end tail zero = if is_end_record tail 0 then some 0 else none
find_end tail (suc at) =
    let lower = find_end tail at in if is_end_record tail (suc at) then some (suc at) else lower

abbrev u16_max : ℕ
u16_max = 65535

abbrev u32_max : ℕ
u32_max = u32_mod - 1

-- The record that the locator of a zip64 archive names.
unfoldable pub locate_zip64 : List ℕ → ℕ → Result ZipLocation ArchiveError
locate_zip64 tail end_at = do
  locator_at ← ok_or (checked_sub end_at 20) (malformed (codes "zip64_locator_missing"))
  if is_value (u32_at tail locator_at) 0x07064b50
      then (do
        record_at ← ok_or (u64_at tail (locator_at + 8)) (malformed (codes "zip64_locator"))
        ok (zip64_record record_at))
      else err (malformed (codes "zip64_locator_missing"))

unfoldable pub directory_before : ZipDirectory → ℕ → Result ZipLocation ArchiveError
directory_before found end =
    if ltb end (found.offset + found.size)
    then err (malformed (codes "zip_directory_out_of_range"))
    else ok (directory found)

unfoldable pub read_end_record : List ℕ → ℕ → ℕ → Result ZipLocation ArchiveError
read_end_record tail tail_start end_at = do
  entries ← ok_or (u16_at tail (end_at + 10)) (malformed (codes "zip_end_record"))
  size ← ok_or (u32_at tail (end_at + 12)) (malformed (codes "zip_end_record"))
  offset ← ok_or (u32_at tail (end_at + 16)) (malformed (codes "zip_end_record"))
  if entries == u16_max || size == u32_max || offset == u32_max
      then locate_zip64 tail end_at
      else directory_before (record { offset = offset; size = size; entries = entries })
          (tail_start + end_at)

unfoldable pub locate_zip_directory : List ℕ → ℕ → Result ZipLocation ArchiveError
locate_zip_directory tail total_size = do
  end_at ← ok_or (find_end tail (length tail - 22)) (malformed (codes "zip_end_record_missing"))
  read_end_record tail (total_size - length tail) end_at

unfoldable pub zip64_directory : List ℕ → Result ZipDirectory ArchiveError
zip64_directory record_bytes =
    if is_value (u32_at record_bytes 0) 0x06064b50
    then (do
      entries ← ok_or (u64_at record_bytes 32) (malformed (codes "zip64_end_record"))
      size ← ok_or (u64_at record_bytes 40) (malformed (codes "zip64_end_record"))
      offset ← ok_or (u64_at record_bytes 48) (malformed (codes "zip64_end_record"))
      ok (record { offset = offset; size = size; entries = entries }))
    else err (malformed (codes "zip64_end_record_missing"))
