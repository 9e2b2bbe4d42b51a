-- ===== src/Content/Range.antt =====
-- Byte ranges: src/api/delivery.rs (the header), src/application/ports.rs (the range) and
-- src/application/content.rs (its resolution against a size).
pub mod Bounds
mod Examples
use silicon_briefcase.Prelude.{
  ℕ, ◌+◌, ◌-◌, Bool, true, false, ◌&&◌, ◌||◌, Option, none, some, List, [], ◌∷◌, Result, ok, err,
  ◌>>=◌, leb, ltb, ◌==◌, if◌then◌else◌, saturating_add, saturating_sub,
}
use silicon_briefcase.Text.{
  Str, codes, trim, strip_prefix, contains_char, split_once, parse_u64, is_empty, byte_len,
}
use silicon_briefcase.Error.{AppError, bad_request, range_not_satisfiable}
use silicon_briefcase.Storage.{ByteRange, RangeRequest, from, last, between}

-- `ByteRange::length`.
unfoldable pub range_length : ByteRange → ℕ
range_length range = saturating_add (saturating_sub range.end range.start) 1

-- The match on the two parsed offsets, with the texts that did not parse.
unfoldable pub range_of_offsets : Str → Str → Option ℕ → Option ℕ → Option RangeRequest
range_of_offsets start end (some first) (some final) =
    if leb first final then some (between first final) else none
range_of_offsets start end (some first) none = if is_empty end then some (from first) else none
range_of_offsets start end none (some length) = if is_empty start then some (last length) else none
range_of_offsets start end none none = none

abbrev pub range_of_sides : Str → Str → Option RangeRequest
range_of_sides start end = range_of_offsets start end (parse_u64 start) (parse_u64 end)

-- The part of the value behind the unit.
unfoldable pub range_of_specifier : Str → Option RangeRequest
range_of_specifier specifier =
    if contains_char b',' specifier then none else elim (split_once b'-' specifier) [
      | none ↦ none
      | some sides ↦ range_of_sides (trim sides.0) (trim sides.1)
    ]

unfoldable pub parse_single_range : Str → Option RangeRequest
parse_single_range value = elim (strip_prefix (codes "bytes=") (trim value)) [
  | none ↦ none
  | some specifier ↦ range_of_specifier (trim specifier)
]

abbrev maximum_range_header_bytes : ℕ
maximum_range_header_bytes = 128

-- The values of the header `Range`, each `none` where it is no text.
unfoldable pub requested_range : List (Option Str) → Result (Option RangeRequest) AppError
requested_range [] = ok none
requested_range (none ∷ []) = ok none
requested_range (some value ∷ []) =
    ok (if ltb maximum_range_header_bytes (byte_len value) then none else parse_single_range value)
requested_range (first ∷ second ∷ rest) = err (bad_request (codes "duplicate_range_header"))

-- The range of a request before its last check, in a file that is not empty.
unfoldable pub anchored : RangeRequest → ℕ → Result ByteRange AppError
anchored (from start) total_size = ok (record { start = start; end = saturating_sub total_size 1 })
anchored (between start end) total_size =
    let last_byte = saturating_sub total_size 1 in
    ok (record { start = start; end = if leb end last_byte then end else last_byte })
anchored (last length) total_size =
    if length == 0
    then err (range_not_satisfiable total_size)
    else ok (record { start = saturating_sub total_size length; end = saturating_sub total_size 1 })

unfoldable pub resolve_range : RangeRequest → ℕ → Result ByteRange AppError
resolve_range request total_size =
    if total_size == 0 then err (range_not_satisfiable total_size) else (do
      range ← anchored request total_size
      if ltb range.end range.start || leb total_size range.start
          then err (range_not_satisfiable total_size)
          else ok range)
