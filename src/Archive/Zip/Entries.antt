-- ===== src/Archive/Zip/Entries.antt =====
-- src/application/archive_listing.rs: the entries of a zip directory. The times of the crate `time`
-- and the decoding of UTF-8 are parameters: `datetime` makes one from the fields of a calendar, if they
-- are one, `from_unix` from seconds, and `utf8_lossy` decodes a name.
pub mod Limits
use silicon_briefcase.Prelude.{
  ℕ, zero, suc, ◌+◌, ◌-◌, ◌*◌, ◌/◌, ◌%◌, Bool, true, false, not, ◌&&◌, ◌||◌, Option, none, some,
  List, [], ◌∷◌, map, leb, ltb, ◌==◌, if◌then◌else◌, take, drop, length, u32_mod,
}
use silicon_briefcase.Text.{Str, codes, ends_with_char}
use silicon_briefcase.Archive.{
  zip, ArchiveItemKind, file, folder, link, ArchiveItem, ArchiveListing, clean_name,
}
use silicon_briefcase.Archive.Zip.{slice, little_endian, u16_at, u32_at, u64_at, is_value}

-- The little-endian number of some bytes of a header that is long enough.
abbrev field : List ℕ → ℕ → ℕ → ℕ
field fixed at count = little_endian (take count (drop at fixed))

-- The bit of a value of a power of two.
abbrev bit : ℕ → ℕ → Bool
bit power flags = (flags / power) % 2 == 1

abbrev or_empty : Option (List ℕ) → List ℕ
or_empty none = []
or_empty (some bytes) = bytes

-- The first byte of a field has its lowest bit set.
abbrev first_is_odd : List ℕ → Bool
first_is_odd [] = false
first_is_odd (flags ∷ rest) = bit 1 flags

-- The values that extra fields correct.
pub record Extra (Time : Type 0) : Type 0 where
  pub size : ℕ
  pub compressed : ℕ
  pub modified_at : Option Time

-- A zip64 value replaces a size that is all ones; the next one stands behind it.
abbrev replaced : Option ℕ → ℕ → ℕ × ℕ
replaced none old = (old, 0)
replaced (some value) old = (value, 8)

abbrev or_old : Option ℕ → ℕ → ℕ
or_old none old = old
or_old (some value) old = value

module _ {Time : Type 0} (datetime : ℕ → ℕ → ℕ → ℕ → ℕ → ℕ → Option Time)
    (from_unix : ℕ → Option Time) (utf8_lossy : List ℕ → Str) where
  unfoldable pub dos_datetime : ℕ → ℕ → Option Time
  dos_datetime date time =
      datetime (1980 + date / 512) ((date / 32) % 16) (date % 32) (time / 2048) ((time / 32) % 64)
        ((time % 32) * 2)

  unfoldable pub zip64_field : List ℕ → Extra Time → Extra Time
  zip64_field contents extra =
      let (size, cursor) =
        if extra.size == u32_mod - 1
        then replaced (u64_at contents 0) extra.size
        else (extra.size, 0) in
      record extra {
        size = size;
        compressed =
            if extra.compressed == u32_mod - 1
            then or_old (u64_at contents cursor) extra.compressed
            else extra.compressed;
      }

  unfoldable pub unix_field : List ℕ → Extra Time → Extra Time
  unix_field contents extra = elim (u32_at contents 1) [
    | none ↦ extra
    | some seconds ↦
        if first_is_odd contents then record extra { modified_at = from_unix seconds } else extra
  ]

  unfoldable pub apply_field : ℕ → List ℕ → Extra Time → Extra Time
  apply_field id contents extra =
      if id == 0x0001
      then zip64_field contents extra
      else if id == 0x5455
      then unix_field contents extra
      else extra

  -- The loop over the fields. Each takes four bytes at least.
  unfoldable pub read_extra_fields : ℕ → List ℕ → ℕ → Extra Time → Extra Time
  read_extra_fields zero bytes at extra = extra
  read_extra_fields (suc fuel) bytes at extra = elim (u16_at bytes at) [
    | none ↦ extra
    | some id ↦ elim (u16_at bytes (at + 2)) [
      | none ↦ extra
      | some count ↦
          read_extra_fields fuel bytes (at + 4 + count)
            (apply_field id (or_empty (slice bytes (at + 4) count)) extra)
    ]
  ]

  unfoldable pub decode_name : ℕ → List ℕ → Str
  decode_name flags name =
      if bit 0x0800 flags
      then utf8_lossy name
      else map (λ byte. if ltb byte 128 then byte else 0xfffd) name

  -- The kind by the mode of Unix, for an entry made there, and else by the path and the DOS attribute.
  unfoldable pub entry_kind : ℕ → ℕ → Str → ArchiveItemKind
  entry_kind made_by_host external path =
      let of_mode = (external / 65536 / 4096) % 16 in
      if made_by_host == 3 && of_mode == 4
      then folder
      else if made_by_host == 3 && of_mode == 10
      then link
      else if ends_with_char b'/' path || bit 16 external
      then folder
      else file

  unfoldable pub item_of : List ℕ → List ℕ → List ℕ → ArchiveItem Time
  item_of fixed name extra_bytes =
      let flags = field fixed 8 2 in
      let extra = read_extra_fields (length extra_bytes) extra_bytes 0 (record {
        size = field fixed 24 4;
        compressed = field fixed 20 4;
        modified_at = dos_datetime (field fixed 14 2) (field fixed 12 2);
      }) in
      let path = decode_name flags name in
      record {
        path = clean_name path;
        kind = entry_kind (field fixed 5 1) (field fixed 38 4) path;
        size = extra.size;
        compressed_size = some extra.compressed;
        modified_at = extra.modified_at;
        encrypted = bit 1 flags;
      }

  -- What a round of the loop finds: the end of the listing, complete or not, or an entry and where
  -- the next one starts.
  pub data Round : Type 0 where
    ended : Bool → Round
    entry : ArchiveItem Time → ℕ → Round

  abbrev of_parts : List ℕ → ℕ → Option (List ℕ) → Option (List ℕ) → Round
  of_parts fixed next (some name) (some extra_bytes) = entry (item_of fixed name extra_bytes) next
  of_parts fixed next _ _ = ended false

  unfoldable pub read_entry : List ℕ → ℕ → Option (List ℕ) → Round
  read_entry directory at none = ended false
  read_entry directory at (some fixed) =
      let name_length = field fixed 28 2 in
      let extra_length = field fixed 30 2 in
      let extra_at = at + 46 + name_length in
      of_parts fixed (extra_at + extra_length + field fixed 32 2)
        (slice directory (at + 46) name_length) (slice directory extra_at extra_length)

  unfoldable pub zip_round : List ℕ → ℕ → ℕ → ℕ → Round
  zip_round directory limit at listed =
      if is_value (u32_at directory at) 0x02014b50
      then if listed == limit then ended false else read_entry directory at (slice directory at 46)
      else ended true

  abbrev pub after_round :
      (ℕ → List (ArchiveItem Time) × Bool) → Round → List (ArchiveItem Time) × Bool
  after_round rest (ended complete) = ([], complete)
  after_round rest (entry item next) = (item ∷ (rest next).0, (rest next).1)

  -- The loop, from a position and the number of entries listed. An entry takes 46 bytes at least.
  unfoldable pub zip_loop : ℕ → List ℕ → ℕ → ℕ → ℕ → List (ArchiveItem Time) × Bool
  zip_loop zero directory limit at listed = ([], true)
  zip_loop (suc fuel) directory limit at listed =
      after_round (λ next. zip_loop fuel directory limit next (listed + 1))
        (zip_round directory limit at listed)

  abbrev pub listing : ℕ → ℕ → List (ArchiveItem Time) × Bool → ArchiveListing Time
  listing declared limit (entries, complete) =
      let truncated = not complete || ltb (length entries) declared in
      record {
        format = zip;
        entries = entries;
        truncated = truncated;
        truncated_because =
            if truncated
            then some (if ltb limit declared then codes "entry_limit" else codes "directory_limit")
            else none;
      }

  unfoldable pub zip_entries : List ℕ → ℕ → ℕ → ArchiveListing Time
  zip_entries directory declared limit =
      listing declared limit (zip_loop (length directory) directory limit 0 0)
