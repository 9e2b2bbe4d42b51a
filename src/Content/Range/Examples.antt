-- ===== src/Content/Range/Examples.antt =====
-- Ranges of a file of a hundred bytes (src/application/content.rs, src/api/delivery.rs).
use silicon_briefcase.Prelude.{◌<◌, ◌↔◌, ◌≤◌, ◌≡◌, refl, arith, some, none, [], ◌∷◌, ok, err}
use silicon_briefcase.Text.{
  codes, strip_prefix, trim, is_whitespace, contains_char, split_once, parse_u64, parse_below,
}
use silicon_briefcase.Error.{bad_request, range_not_satisfiable}
use silicon_briefcase.Storage.{ByteRange, from, last, between}
use silicon_briefcase.Content.Range.{
  range_length, resolve_range, parse_single_range, requested_range, range_of_specifier,
  range_of_offsets,
}
use silicon_briefcase.Content.Range.Bounds.{
  IsSatisfiable, BytesServed, resolve_range-err, resolve_range-IsSatisfiable,
}

open_ended_test : parse_single_range (codes " bytes= 10 - ") ≡ some (from 10)
unfolding parse_single_range strip_prefix trim is_whitespace range_of_specifier contains_char
    split_once range_of_offsets parse_u64 parse_below
open_ended_test = refl

suffix_test : parse_single_range (codes "bytes=-5") ≡ some (last 5)
unfolding parse_single_range strip_prefix trim is_whitespace range_of_specifier contains_char
    split_once range_of_offsets parse_u64 parse_below
suffix_test = refl

backwards_test : parse_single_range (codes "bytes=7-3") ≡ none
unfolding parse_single_range strip_prefix trim is_whitespace range_of_specifier contains_char
    split_once range_of_offsets parse_u64 parse_below
backwards_test = refl

several_test : parse_single_range (codes "bytes=1-2,4-5") ≡ none
unfolding parse_single_range strip_prefix trim is_whitespace range_of_specifier contains_char
several_test = refl

duplicate_test :
    requested_range (some (codes "bytes=1-2") ∷ none ∷ [])
    ≡ err (bad_request (codes "duplicate_range_header"))
unfolding requested_range
duplicate_test = refl

resolve_range-err_example :
    (resolve_range (from 100) 100 ≡ err (range_not_satisfiable 100))
    ↔ ((range_not_satisfiable 100 ≡ range_not_satisfiable 100) × ¬ IsSatisfiable (from 100) 100)
resolve_range-err_example = resolve_range-err (from 100) 100 (range_not_satisfiable 100)

resolve_range-IsSatisfiable_example :
    (range : ByteRange) × (resolve_range (between 90 200) 100 ≡ ok range)
    × (range.start ≡ 90)
    × (range.start ≤ range.end)
    × (range.end < 100)
    × BytesServed (between 90 200) 100 (range_length range)
resolve_range-IsSatisfiable_example =
    resolve_range-IsSatisfiable (between 90 200) 100 (omega arith) (omega arith, omega arith)
