-- ===== src/Multipart/Plan/Bounds.antt =====
-- What a plan looks like: every size in the service's range has one, within the provider's limits.
use native.Mathlib.Nat.{div-add-mod', mod-lt, div-le_self}
use native.Mathlib.Decide.{dec_lt}
use silicon_briefcase.Prelude.{
  ℕ, zero, suc, ◌⊎◌, inl, inr, ◌+◌, ◌-◌, ◌*◌, ◌/◌, ◌%◌, if◌then◌else◌, u64_mod, ◌≤◌, ◌<◌, ◌≡◌, refl,
  ok, err, arith, ◌==◌,
}
use silicon_briefcase.Multipart.Plan.{
  mib, multipart_min_file_bytes, multipart_min_part_bytes, multipart_max_part_bytes,
  max_upload_bytes, multipart_max_part_count, single_upload_max_bytes, MultipartPlan,
  MultipartPlanError, multipart, single_request, file_too_large, multipart_not_required,
  checked_ceil_div, clamp, planned_part_size, plan_with_part_size, plan_for_file_size,
  strategy_for_file_size,
}

-- A plan covers its file exactly: all parts but the last are full, and the last is not empty.
pub record IsExact (plan : MultipartPlan) : Type 0 where
  pub smallest : multipart_min_part_bytes ≤ plan.part_size
  pub largest : plan.part_size ≤ multipart_max_part_bytes
  pub in_range : plan.file_size ≤ max_upload_bytes
  pub counted : 1 ≤ plan.part_count
  pub few : plan.part_count ≤ multipart_max_part_count
  pub not_short : plan.file_size ≤ plan.part_count * plan.part_size
  pub not_long : (plan.part_count - 1) * plan.part_size < plan.file_size

ceil_div : ℕ → ℕ → ℕ
ceil_div n d = n / d + (if n % d == 0 then 0 else 1)

-- The rounded-up quotient is the least number of parts of size `d` that hold `n`.
ceil_div_bounds : (n d : ℕ) → 1 ≤ d → (n ≤ ceil_div n d * d) × (ceil_div n d * d < n + d)
unfolding ceil_div
ceil_div_bounds n d hd = ground (arith, div-add-mod' n d, mod-lt n hd)

ceil_div-le : (n d : ℕ) → 1 ≤ d → ceil_div n d ≤ n + 1
unfolding ceil_div
ceil_div-le n d hd = ground (arith, div-le_self n d)

checked_ceil_div_lem :
    (n d : ℕ) → 1 ≤ d → n + 1 < u64_mod → checked_ceil_div n d ≡ ok (ceil_div n d)
unfolding checked_ceil_div ceil_div
checked_ceil_div_lem n d hd hn = ground (arith, ceil_div-le n d hd)

module _ (n : ℕ) (low : multipart_min_file_bytes ≤ n) (high : n ≤ max_upload_bytes) where
  planned_part_size_lem :
      (s : ℕ) × (planned_part_size n ≡ ok s)
      × (multipart_min_part_bytes ≤ s)
      × (s ≤ multipart_max_part_bytes)
      × (n ≤ 1024 * s)
  unfolding planned_part_size
  planned_part_size_lem =
      let c = ceil_div n 1000 in
      let m = ceil_div c mib in
      (
        clamp (m * mib) multipart_min_part_bytes multipart_max_part_bytes,
        ground (
          arith,
          checked_ceil_div_lem n 1000,
          checked_ceil_div_lem c mib,
          ceil_div-le n 1000,
          ceil_div-le c mib,
          ceil_div_bounds n 1000,
          ceil_div_bounds c mib,
        ),
        ground arith,
        ground arith,
        ground (arith, ceil_div_bounds n 1000, ceil_div_bounds c mib),
      )

-- A count whose full parts but one fit below a bound is at most that bound.
count_bound : (n s c k : ℕ) → n ≤ k * s → c * s < n + s → c ≤ k
count_bound n s c k h g = grind arith

pos_of_mul : (n c s : ℕ) → 1 ≤ n → n ≤ c * s → 1 ≤ c
pos_of_mul n zero s h g = omega arith
pos_of_mul n (suc c) s h g = omega arith

pub pred_mul : (c s : ℕ) → 1 ≤ c → (c - 1) * s + s ≡ c * s
pred_mul zero s h = absurd (omega arith)
pred_mul (suc c) s h = grind arith

plan_with_part_size_lem :
    (n s : ℕ)
    → multipart_min_file_bytes ≤ n
    → n ≤ max_upload_bytes
    → multipart_min_part_bytes ≤ s
    → s ≤ multipart_max_part_bytes
    → n ≤ 1024 * s
    → (plan : MultipartPlan) × (plan_with_part_size n s ≡ ok plan)
      × (plan.file_size ≡ n)
      × IsExact plan
unfolding plan_with_part_size
plan_with_part_size_lem n s l h a b g =
    let c = ceil_div n s in
    let few = count_bound n s c 1024 g (ceil_div_bounds n s (omega arith)).1 in
    let at_least_one = pos_of_mul n c s (omega arith) (ceil_div_bounds n s (omega arith)).0 in
    (
      record { file_size = n; part_size = s; part_count = c },
      ground (arith, checked_ceil_div_lem n s),
      refl,
      record {
        smallest = a;
        largest = b;
        in_range = h;
        counted = at_least_one;
        few = omega arith;
        not_short = (ceil_div_bounds n s (omega arith)).0;
        not_long = omega (arith, pred_mul c s at_least_one, ceil_div_bounds n s (omega arith));
      },
    )

-- Every size above the single-request limit and up to 5 TiB has a plan: it is for that size, its
-- parts have between 8 MiB and 5 GiB, there are 1 to 10000 of them, all parts but the last are
-- full, and the last is not empty.
pub plan_for_file_size-IsExact :
    (n : ℕ)
    → multipart_min_file_bytes ≤ n
    → n ≤ max_upload_bytes
    → (plan : MultipartPlan) × (plan_for_file_size n ≡ ok plan)
      × (plan.file_size ≡ n)
      × IsExact plan
unfolding plan_for_file_size
plan_for_file_size-IsExact n low high =
    let (s, e, a, b, g) = planned_part_size_lem n low high in
    let (plan, p, q, r) = plan_with_part_size_lem n s low high a b g in (plan, ground arith, q, r)

-- A size has no plan only because it belongs to the single-request route or exceeds 5 TiB; no size
-- meets an arithmetic overflow or more than 10000 parts.
pub plan_for_file_size-err :
    (n : ℕ) (e : MultipartPlanError)
    → plan_for_file_size n ≡ err e
    → ((n < multipart_min_file_bytes) × (e ≡ multipart_not_required n single_upload_max_bytes))
      ⊎ ((max_upload_bytes < n) × (e ≡ file_too_large n max_upload_bytes))
unfolding plan_for_file_size
plan_for_file_size-err n e h = elim (dec_lt n multipart_min_file_bytes) [
  | yes small ↦ inl (small, ground arith)
  | no big ↦ elim (dec_lt max_upload_bytes n) [
    | yes over ↦ inr (over, ground arith)
    | no fits ↦
        let (s, e, a, b, g) = planned_part_size_lem n (omega arith) (omega arith) in
        let (plan, p, q, r) = plan_with_part_size_lem n s (omega arith) (omega arith) a b g in
        absurd (ground arith)
  ]
]

-- Up to 5 TiB every size has a route: a single request up to 100 MiB, and above that a plan for the
-- size, within the bounds of the provider, whose parts but the last are full and whose last is not empty.
pub strategy_for_file_size_lem :
    (n : ℕ)
    → n ≤ max_upload_bytes
    → ((n ≤ single_upload_max_bytes) × (strategy_for_file_size n ≡ ok single_request))
      ⊎ ((single_upload_max_bytes < n)
          × ((plan : MultipartPlan) × (strategy_for_file_size n ≡ ok (multipart plan))
              × (plan.file_size ≡ n)
              × IsExact plan))
unfolding strategy_for_file_size
strategy_for_file_size_lem n h = elim (dec_lt single_upload_max_bytes n) [
  | no small ↦ inl (omega arith, ground arith)
  | yes big ↦
      let (plan, p, q, r) = plan_for_file_size-IsExact n (omega arith) h in
      inr (big, (plan, ground arith, q, r))
]
