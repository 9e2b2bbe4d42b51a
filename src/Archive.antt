-- ===== src/Archive.antt =====
-- src/application/archive_listing.rs: formats, items and listings of archives.
pub mod Zip
mod Examples
use silicon_briefcase.Prelude.{
  ℕ, zero, suc, Bool, true, false, not, Option, none, some, List, [], ◌∷◌, map, if◌then◌else◌, any,
}
use silicon_briefcase.Text.{
  Str, codes, is_control, to_ascii_lowercase, ends_with, str_eq, take_chars,
}

abbrev pub max_listed_entries : ℕ
max_listed_entries = 10000

abbrev max_name_chars : ℕ
max_name_chars = 4096

pub data ArchiveFormat : Type 0 where
  zip tar tar_gz tar_zst seven_zip : ArchiveFormat

abbrev suffixes : List (Str × ArchiveFormat)
suffixes =
    (codes ".tar.gz", tar_gz)
    ∷ (codes ".tgz", tar_gz)
    ∷ (codes ".tar.zst", tar_zst)
    ∷ (codes ".tar.zstd", tar_zst)
    ∷ (codes ".tzst", tar_zst)
    ∷ (codes ".tar", tar)
    ∷ (codes ".zip", zip)
    ∷ (codes ".7z", seven_zip)
    ∷ []

unfoldable format_by_name : List (Str × ArchiveFormat) → Str → Option ArchiveFormat
format_by_name [] lower = none
format_by_name ((suffix, format) ∷ rest) lower =
    let later = format_by_name rest lower in if ends_with suffix lower then some format else later

unfoldable format_by_type : Option Str → Option ArchiveFormat
format_by_type none = none
format_by_type (some content_type) =
    let lower = map to_ascii_lowercase content_type in
    if any (str_eq lower) (codes "application/zip" ∷ codes "application/x-zip-compressed" ∷ [])
    then some zip
    else if str_eq lower (codes "application/x-tar")
    then some tar
    else if str_eq lower (codes "application/x-7z-compressed")
    then some seven_zip
    else none

-- `ArchiveFormat::detect`.
unfoldable detect : Str → Option Str → Option ArchiveFormat
unfolding format_by_name format_by_type
detect name content_type = elim (format_by_name suffixes (map to_ascii_lowercase name)) [
  | some format ↦ some format
  | none ↦ format_by_type content_type
]

pub data ArchiveItemKind : Type 0 where
  file folder link other : ArchiveItemKind

pub record ArchiveItem (Time : Type 0) : Type 0 where
  pub path : Str
  pub kind : ArchiveItemKind
  pub size : ℕ
  pub compressed_size : Option ℕ
  pub modified_at : Option Time
  pub encrypted : Bool

pub record ArchiveListing (Time : Type 0) : Type 0 where
  pub format : ArchiveFormat
  pub entries : List (ArchiveItem Time)
  pub truncated : Bool
  pub truncated_because : Option Str

pub data ArchiveError : Type 0 where
  malformed : Str → ArchiveError
  encrypted_archive : ArchiveError
  too_large : ℕ → ArchiveError

unfoldable pub without_controls : Str → Str
without_controls [] = []
without_controls (c ∷ s) = let rest = without_controls s in if is_control c then rest else c ∷ rest

unfoldable pub clean_name : Str → Str
unfolding without_controls
clean_name raw = take_chars max_name_chars (without_controls raw)
