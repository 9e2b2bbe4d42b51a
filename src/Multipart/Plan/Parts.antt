-- ===== src/Multipart/Plan/Parts.antt =====
-- The sizes that a plan expects of its parts (`MultipartPlan::expected_part_size`).
use native.Mathlib.Decide.{dec_lt, ℕ_discrete}
use silicon_briefcase.Prelude.{
  ℕ, zero, suc, ◌+◌, ◌-◌, ◌*◌, ◌≤◌, ◌<◌, ◌≡◌, refl, Result, ok, err, ◌>>=◌, ◌∙◌, arith, ◌==◌, ◌⊎◌,
  inl, inr, if◌then◌else◌, ap,
}
use silicon_briefcase.Multipart.Plan.{MultipartPlan, InvalidPartNumber, expected_part_size}
use silicon_briefcase.Multipart.Plan.Bounds.{IsExact, pred_mul}

-- The size of a part by its number, as a plain function.
unfoldable pub part_bytes : MultipartPlan → ℕ → ℕ
part_bytes plan k =
    if k == plan.part_count
    then plan.file_size - (plan.part_count - 1) * plan.part_size
    else plan.part_size

-- Within the range 1..=count the expected size is that of the part.
pub expected_part_size_lem :
    (plan : MultipartPlan) (k : ℕ)
    → IsExact plan
    → 1 ≤ k
    → k ≤ plan.part_count
    → expected_part_size plan k ≡ ok (part_bytes plan k)
unfolding expected_part_size part_bytes
expected_part_size_lem plan k v low high = ground arith

-- A plan that covers its file exactly gives a size for the part numbers 1 to the count; any other number is
-- refused with that number and the count.
expected_part_size-cases :
    (plan : MultipartPlan) (k : ℕ)
    → IsExact plan
    → ((1 ≤ k) × (k ≤ plan.part_count) × (expected_part_size plan k ≡ ok (part_bytes plan k)))
      ⊎ (((k ≡ 0) ⊎ (plan.part_count < k))
          × (expected_part_size plan k
              ≡ err (record { part_number = k; part_count = plan.part_count })))
unfolding expected_part_size
expected_part_size-cases plan k v = elim (dec_lt plan.part_count k) [
  | yes over ↦ inr (inr over, ground arith)
  | no fits ↦ elim (ℕ_discrete k 0) [
    | yes none ↦ inr (inl none, ground arith)
    | no some ↦
        inl (omega arith, omega arith, expected_part_size_lem plan k v (omega arith) (omega arith))
  ]
]

-- No part is empty, and none is larger than the plan's part size.
part_bytes_bounds :
    (plan : MultipartPlan) (k : ℕ)
    → IsExact plan
    → (1 ≤ part_bytes plan k) × (part_bytes plan k ≤ plan.part_size)
unfolding part_bytes
part_bytes_bounds plan k v = ground (arith, pred_mul plan.part_count plan.part_size)

-- The bytes of the parts 1 to `k`.
unfoldable pub bytes_upto : MultipartPlan → ℕ → ℕ
bytes_upto plan zero = 0
bytes_upto plan (suc k) = bytes_upto plan k + part_bytes plan (suc k)

full_parts :
    (plan : MultipartPlan) (k : ℕ) → k < plan.part_count → bytes_upto plan k ≡ k * plan.part_size
unfolding bytes_upto part_bytes
full_parts plan zero h = omega arith
full_parts plan (suc k) h = ground (arith, full_parts plan k)

bytes_upto_step :
    (plan : MultipartPlan) (c : ℕ)
    → plan.part_count ≡ suc c
    → bytes_upto plan (suc c) ≡ c * plan.part_size + (plan.file_size - c * plan.part_size)
unfolding bytes_upto part_bytes
bytes_upto_step plan c e = ground (arith, full_parts plan c)

total :
    (plan : MultipartPlan)
    → IsExact plan
    → (c : ℕ) → plan.part_count ≡ suc c
    → bytes_upto plan plan.part_count ≡ plan.file_size
total plan v c e = rw (ap (bytes_upto plan) e) (
    ground
      (arith, bytes_upto_step plan c e, v.not_long, ap (λ (t : ℕ). (t - 1) * plan.part_size) e))

pub bytes_upto-part_count :
    (plan : MultipartPlan) → IsExact plan → bytes_upto plan plan.part_count ≡ plan.file_size
bytes_upto-part_count plan v = total plan v (plan.part_count - 1) (omega (arith, v.counted))

-- A size that a plan covering its file exactly expects of a part is positive and at most the part size, and it is the part size
-- for every part but the last.
pub expected_part_size-bounds :
    (plan : MultipartPlan) (k n : ℕ)
    → IsExact plan
    → expected_part_size plan k ≡ ok n
    → (1 ≤ n) × (n ≤ plan.part_size) × ((n ≡ plan.part_size) ⊎ (k ≡ plan.part_count))
unfolding part_bytes
expected_part_size-bounds plan k n v h = elim (expected_part_size-cases plan k v) [
  | inl (low, high, e) ↦ ground (arith, part_bytes_bounds plan k v)
  | inr (wrong, e) ↦ absurd (cc)
]

-- The sizes expected of the parts 1 to `k`, added up.
unfoldable pub expected_total : MultipartPlan → ℕ → Result ℕ InvalidPartNumber
expected_total plan zero = ok 0
expected_total plan (suc k) = do
  total ← expected_total plan k
  size ← expected_part_size plan (suc k)
  ok (total + size)

expected_total_lem :
    (plan : MultipartPlan) (k : ℕ)
    → IsExact plan
    → k ≤ plan.part_count
    → expected_total plan k ≡ ok (bytes_upto plan k)
unfolding expected_total bytes_upto
expected_total_lem plan zero v h = refl
expected_total_lem plan (suc k) v h = rw (
  expected_total_lem plan k v (omega arith),
  expected_part_size_lem plan (suc k) v (omega arith) h,
)

-- When a plan covers its file exactly, every part from 1 to the count has an expected size, and these
-- add up to the declared file size.
pub expected_total-part_count :
    (plan : MultipartPlan) → IsExact plan → expected_total plan plan.part_count ≡ ok plan.file_size
expected_total-part_count plan v =
    expected_total_lem plan plan.part_count v (omega arith) ∙ ap ok (bytes_upto-part_count plan v)
