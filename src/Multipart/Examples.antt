-- ===== src/Multipart/Examples.antt =====
-- An upload of one byte more than a single request takes: its plan, its parts, and its session
-- (src/domain/multipart.rs).
use silicon_briefcase.Prelude.{ℕ, ◌≡◌, ◌≢◌, ◌↔◌, refl, List, [], ◌∷◌, length, ok, arith}
use silicon_briefcase.Text.{codes}
use silicon_briefcase.Multipart.Plan.{
  MultipartPlan, plan_for_file_size, expected_part_size, planned_part_size, checked_ceil_div,
  plan_with_part_size,
}
use silicon_briefcase.Multipart.Plan.Bounds.{IsExact, plan_for_file_size-IsExact}
use silicon_briefcase.Multipart.Completion.{
  CompletedPart, validate_completion, check_parts, check_part,
}
use silicon_briefcase.Multipart.Completion.Exact.{AreExactFrom, validate_completion_iff}
use silicon_briefcase.Multipart.Lifecycle.{initializing, active, completing, completed, transition}
use silicon_briefcase.Multipart.Lifecycle.Order.{here, next, Reach-no_return}

abbrev small_plan : MultipartPlan
small_plan = record { file_size = 104857601; part_size = 8388608; part_count = 13 }

small_plan-IsExact : IsExact small_plan
small_plan-IsExact = record {
  smallest = omega arith;
  largest = omega arith;
  in_range = omega arith;
  counted = omega arith;
  few = omega arith;
  not_short = omega arith;
  not_long = omega arith;
}

-- The plan is the one that the code makes.
small_plan_test : plan_for_file_size 104857601 ≡ ok small_plan
unfolding plan_for_file_size planned_part_size checked_ceil_div plan_with_part_size
small_plan_test = refl

abbrev part : ℕ → ℕ → CompletedPart
part number bytes = record {
  part_number = number;
  etag = codes "e";
  byte_size = bytes;
  checksum_sha256 = [];
}

abbrev full : ℕ → CompletedPart
full number = part number 8388608

abbrev all_parts : List CompletedPart
all_parts =
    full 1
    ∷ full 2
    ∷ full 3
    ∷ full 4
    ∷ full 5
    ∷ full 6
    ∷ full 7
    ∷ full 8
    ∷ full 9
    ∷ full 10
    ∷ full 11
    ∷ full 12
    ∷ part 13 4194305
    ∷ []

all_parts_test : validate_completion small_plan all_parts ≡ ok tt
unfolding validate_completion expected_part_size check_parts check_part
all_parts_test = refl

validate_completion_iff_example :
    (validate_completion small_plan all_parts ≡ ok tt)
    ↔ ((length all_parts ≡ 13) × AreExactFrom small_plan 0 all_parts)
validate_completion_iff_example = validate_completion_iff small_plan small_plan-IsExact all_parts

plan_for_file_size-IsExact_example :
    (plan : MultipartPlan) × (plan_for_file_size 104857601 ≡ ok plan)
    × (plan.file_size ≡ 104857601)
    × IsExact plan
plan_for_file_size-IsExact_example =
    plan_for_file_size-IsExact 104857601 (omega arith) (omega arith)

Reach-no_return_example : completed ≢ initializing
unfolding transition
Reach-no_return_example =
    Reach-no_return {s = initializing} {t = active} {u = completed} refl
      (next completed (next completing here refl) refl)
