-- ===== src/Multipart/Completion.antt =====
-- src/domain/multipart.rs: uploaded parts and the check of a completion set.
pub mod Exact
use silicon_briefcase.Prelude.{
  ℕ, zero, suc, ◌+◌, Option, none, some, List, [], ◌∷◌, Result, ok, err, ◌>>=◌, ok_or, map_err,
  checked_add, u32_try_from, length, ◌==◌, if◌then◌else◌,
}
use silicon_briefcase.Text.{Str, trim, is_empty}
use silicon_briefcase.Multipart.Plan.{MultipartPlan, InvalidPartNumber, expected_part_size}

pub record CompletedPart : Type 0 where
  pub part_number : ℕ
  pub etag : Str
  pub byte_size : ℕ
  pub checksum_sha256 : List ℕ

pub data CompletedPartError : Type 0 where
  zero_part_number empty_etag : CompletedPartError

-- `CompletedPart::new`.
unfoldable completed_part : ℕ → Str → ℕ → List ℕ → Result CompletedPart CompletedPartError
completed_part part_number etag byte_size checksum_sha256 =
    if part_number == 0
    then err zero_part_number
    else if is_empty (trim etag)
    then err empty_etag
    else ok (record {
      part_number = part_number;
      etag = etag;
      byte_size = byte_size;
      checksum_sha256 = checksum_sha256;
    })

pub data CompletionValidationError : Type 0 where
  part_count_not_representable : CompletionValidationError
  wrong_part_count : ℕ → ℕ → CompletionValidationError
  unexpected_part_number : ℕ → ℕ → CompletionValidationError
  wrong_part_size : ℕ → ℕ → ℕ → CompletionValidationError
  byte_total_overflow : CompletionValidationError
  wrong_byte_total : ℕ → ℕ → CompletionValidationError

abbrev not_representable : {E : Type 0} → E → CompletionValidationError
not_representable e = part_count_not_representable

-- `u32::try_from(index).ok().and_then(|value| value.checked_add(1))`, at `u32`.
abbrev position_of : ℕ → Option ℕ
position_of index = u32_try_from (index + 1)

-- One round of the loop: the part at an index, and the bytes before it.
unfoldable pub check_part :
    MultipartPlan → ℕ → ℕ → CompletedPart → Result ℕ CompletionValidationError
check_part plan index total_bytes part = do
  expected_number ← ok_or (position_of index) part_count_not_representable
  if part.part_number == expected_number
      then (do
        expected_size ← map_err not_representable (expected_part_size plan expected_number)
        if part.byte_size == expected_size
            then ok_or (checked_add total_bytes part.byte_size) byte_total_overflow
            else err (wrong_part_size part.part_number expected_size part.byte_size))
      else err (unexpected_part_number expected_number part.part_number)

-- The loop over the parts, from an index and the bytes counted before it.
unfoldable pub check_parts :
    MultipartPlan → ℕ → ℕ → List CompletedPart → Result ℕ CompletionValidationError
check_parts plan index total_bytes [] = ok total_bytes
check_parts plan index total_bytes (part ∷ parts) = do
  total ← check_part plan index total_bytes part
  check_parts plan (index + 1) total parts

unfoldable pub validate_completion :
    MultipartPlan → List CompletedPart → Result Unit CompletionValidationError
validate_completion plan parts = do
  actual_count ← ok_or (u32_try_from (length parts)) part_count_not_representable
  if actual_count == plan.part_count
      then (do
        total_bytes ← check_parts plan 0 0 parts
        if total_bytes == plan.file_size
            then ok tt
            else err (wrong_byte_total plan.file_size total_bytes))
      else err (wrong_part_count plan.part_count actual_count)
