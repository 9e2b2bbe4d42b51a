-- ===== src/Multipart/Plan.antt =====
-- src/domain/multipart.rs: the size limits, the route and the plan of an upload.
pub mod Bounds
pub mod Parts
use silicon_briefcase.Prelude.{
  ℕ, ◌+◌, ◌-◌, ◌*◌, Option, none, some, Result, ok, err, ◌>>=◌, ok_or, map_ok, checked_add,
  checked_mul, checked_sub, checked_div, checked_rem, u32_try_from, ltb, leb, ◌==◌, if◌then◌else◌,
}

abbrev pub mib : ℕ
mib = 1048576

abbrev pub gib : ℕ
gib = 1073741824

abbrev pub tib : ℕ
tib = 1099511627776

abbrev pub single_upload_max_bytes : ℕ
single_upload_max_bytes = 100 * mib

abbrev pub multipart_min_file_bytes : ℕ
multipart_min_file_bytes = single_upload_max_bytes + 1

abbrev multipart_target_part_count : ℕ
multipart_target_part_count = 1000

abbrev pub multipart_min_part_bytes : ℕ
multipart_min_part_bytes = 8 * mib

abbrev pub multipart_max_part_bytes : ℕ
multipart_max_part_bytes = 5 * gib

abbrev pub max_upload_bytes : ℕ
max_upload_bytes = 5 * tib

abbrev pub multipart_max_part_count : ℕ
multipart_max_part_count = 10000

pub data MultipartPlanError : Type 0 where
  multipart_not_required : ℕ → ℕ → MultipartPlanError
  file_too_large : ℕ → ℕ → MultipartPlanError
  arithmetic_overflow : MultipartPlanError
  too_many_parts : ℕ → ℕ → MultipartPlanError

pub record MultipartPlan : Type 0 where
  pub file_size : ℕ
  pub part_size : ℕ
  pub part_count : ℕ

-- Each `?` on a checked operation fails with `ArithmeticOverflow`.
unfoldable pub checked_ceil_div : ℕ → ℕ → Result ℕ MultipartPlanError
checked_ceil_div dividend divisor = do
  quotient ← ok_or (checked_div dividend divisor) arithmetic_overflow
  remainder ← ok_or (checked_rem dividend divisor) arithmetic_overflow
  ok_or (checked_add quotient (if remainder == 0 then 0 else 1)) arithmetic_overflow

-- `Ord::clamp`.
abbrev pub clamp : ℕ → ℕ → ℕ → ℕ
clamp x lo hi = if ltb x lo then lo else if ltb hi x then hi else x

-- The part size of the written formula: a thousandth, in whole mebibytes, clamped.
unfoldable pub planned_part_size : ℕ → Result ℕ MultipartPlanError
planned_part_size file_size = do
  calculated_part_size ← checked_ceil_div file_size multipart_target_part_count
  whole_mib ← checked_ceil_div calculated_part_size mib
  rounded_part_size ← ok_or (checked_mul whole_mib mib) arithmetic_overflow
  ok (clamp rounded_part_size multipart_min_part_bytes multipart_max_part_bytes)

-- The rest of the plan, once the part size is known.
unfoldable pub plan_with_part_size : ℕ → ℕ → Result MultipartPlan MultipartPlanError
plan_with_part_size file_size part_size = do
  part_count_u64 ← checked_ceil_div file_size part_size
  part_count ← ok_or (u32_try_from part_count_u64) arithmetic_overflow
  if ltb multipart_max_part_count part_count
      then err (too_many_parts part_count multipart_max_part_count)
      else ok (record { file_size = file_size; part_size = part_size; part_count = part_count })

-- `MultipartPlan::for_file_size`.
unfoldable pub plan_for_file_size : ℕ → Result MultipartPlan MultipartPlanError
plan_for_file_size file_size =
    if ltb file_size multipart_min_file_bytes
    then err (multipart_not_required file_size single_upload_max_bytes)
    else if ltb max_upload_bytes file_size
    then err (file_too_large file_size max_upload_bytes)
    else (do part_size ← planned_part_size file_size; plan_with_part_size file_size part_size)

pub data UploadStrategy : Type 0 where
  single_request : UploadStrategy
  multipart : MultipartPlan → UploadStrategy

-- `UploadStrategy::for_file_size`.
unfoldable pub strategy_for_file_size : ℕ → Result UploadStrategy MultipartPlanError
strategy_for_file_size file_size =
    if leb file_size single_upload_max_bytes
    then ok single_request
    else map_ok multipart (plan_for_file_size file_size)

pub record InvalidPartNumber : Type 0 where
  pub part_number : ℕ
  pub part_count : ℕ

unfoldable pub expected_part_size : MultipartPlan → ℕ → Result ℕ InvalidPartNumber
expected_part_size plan part_number =
    let invalid : InvalidPartNumber = record {
      part_number = part_number;
      part_count = plan.part_count;
    } in
    if part_number == 0
    then err invalid
    else if ltb plan.part_count part_number
    then err invalid
    else if ltb part_number plan.part_count
    then ok plan.part_size
    else (do
      preceding_bytes ← ok_or (checked_mul (plan.part_count - 1) plan.part_size) invalid
      ok_or (checked_sub plan.file_size preceding_bytes) invalid)
