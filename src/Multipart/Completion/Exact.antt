-- ===== src/Multipart/Completion/Exact.antt =====
-- Which part sets complete an upload.
use native.Mathlib.Nat.{zero-add, suc-add, add-zero}
use native.Mathlib.Numerals.{add-one}
use silicon_briefcase.Prelude.{
  ◌∙◌, >>=-eq-ok, lt→ltb, ==_refl, ℕ, zero, suc, ◌+◌, ◌-◌, ◌≤◌, ◌<◌, ◌≡◌, ◌↔◌, List, [], ◌∷◌,
  length, ok, arith, u64_mod, u32_mod, sym, ap,
}
use silicon_briefcase.Multipart.Plan.{MultipartPlan, expected_part_size}
use silicon_briefcase.Multipart.Plan.Bounds.{IsExact}
use silicon_briefcase.Multipart.Plan.Parts.{
  part_bytes, expected_part_size_lem, bytes_upto, bytes_upto-part_count,
}
use silicon_briefcase.Multipart.Completion.{
  CompletedPart, check_part, check_parts, validate_completion,
}

-- The parts from an index on are numbered in order, each of the size that the plan gives it.
abbrev pub AreExactFrom : MultipartPlan → ℕ → List CompletedPart → Type 0
AreExactFrom plan index [] = Unit
AreExactFrom plan index (part ∷ parts) =
    (part.part_number ≡ index + 1)
    × (part.byte_size ≡ part_bytes plan (index + 1))
    × AreExactFrom plan (index + 1) parts

-- One round accepts exactly the part of the next number and of the expected size.
module _ (plan : MultipartPlan) (i total size : ℕ) (part : CompletedPart) (small : i + 1 < u32_mod)
    (fits : total + size < u64_mod) (expected : expected_part_size plan (i + 1) ≡ ok size) where
  check_part_ok :
      (n : ℕ)
      → check_part plan i total part ≡ ok n
      → (part.part_number ≡ i + 1) × (part.byte_size ≡ size) × (n ≡ total + size)
  unfolding check_part
  check_part_ok n e = ground arith

  check_part_of_exact :
      part.part_number ≡ i + 1
      → part.byte_size ≡ size
      → check_part plan i total part ≡ ok (total + size)
  unfolding check_part
  check_part_of_exact e g =
      rw (lt→ltb _ _ small) (rw (e, ==_refl (i + 1), expected, g, ==_refl size, lt→ltb _ _ fits))

bytes_upto_mono : (plan : MultipartPlan) (j k : ℕ) → bytes_upto plan j ≤ bytes_upto plan (k + j)
unfolding bytes_upto
bytes_upto_mono plan j zero = rw zero-add (omega arith)
bytes_upto_mono plan j (suc k) = rw suc-add (omega (arith, bytes_upto_mono plan j k))

module _ (plan : MultipartPlan) (v : IsExact plan) where
  bytes_upto-le : (i : ℕ) → i ≤ plan.part_count → bytes_upto plan i ≤ plan.file_size
  bytes_upto-le i h =
      let e : plan.part_count - i + i ≡ plan.part_count = omega arith in
      omega (
        arith,
        bytes_upto_mono plan i (plan.part_count - i),
        ap (bytes_upto plan) e,
        (bytes_upto-part_count plan v),
      )

  bytes_upto_next : (i : ℕ) → bytes_upto plan i + part_bytes plan (i + 1) ≡ bytes_upto plan (i + 1)
  unfolding bytes_upto
  bytes_upto_next i = rw add-one

  -- What one round needs, for an index within the plan.
  module _ (i : ℕ) (part : CompletedPart) (h : i < plan.part_count) where
    small : i + 1 < u32_mod
    small = omega (arith, v.few)

    fits : bytes_upto plan i + part_bytes plan (i + 1) < u64_mod
    fits = omega (arith, bytes_upto_next i, bytes_upto-le (i + 1) (omega arith), v.in_range)

    expected : expected_part_size plan (i + 1) ≡ ok (part_bytes plan (i + 1))
    expected = expected_part_size_lem plan (i + 1) v (omega arith) (omega arith)

    round_ok :
        (n : ℕ)
        → check_part plan i (bytes_upto plan i) part ≡ ok n
        → (part.part_number ≡ i + 1)
          × (part.byte_size ≡ part_bytes plan (i + 1))
          × (n ≡ bytes_upto plan (i + 1))
    round_ok n e =
        let (a, b, c) =
          check_part_ok plan i (bytes_upto plan i) (part_bytes plan (i + 1)) part small fits
            expected n e in
        (a, b, c ∙ bytes_upto_next i)

    round_of_exact :
        part.part_number ≡ i + 1
        → part.byte_size ≡ part_bytes plan (i + 1)
        → check_part plan i (bytes_upto plan i) part ≡ ok (bytes_upto plan (i + 1))
    round_of_exact a b =
        check_part_of_exact plan i (bytes_upto plan i) (part_bytes plan (i + 1)) part small fits
          expected a b
        ∙ ap ok (bytes_upto_next i)

  check_parts_ok :
      (i : ℕ) (parts : List CompletedPart) (n : ℕ)
      → i + length parts ≤ plan.part_count
      → check_parts plan i (bytes_upto plan i) parts ≡ ok n
      → AreExactFrom plan i parts
  unfolding check_parts
  check_parts_ok i [] n h e = tt
  check_parts_ok i (part ∷ parts) n h e =
      let (t, p, q) =
        >>=-eq-ok (check_part plan i (bytes_upto plan i) part)
          (λ t. check_parts plan (i + 1) t parts) e in
      let (a, b, c) = round_ok i part (omega arith) t p in
      (
        a,
        b,
        check_parts_ok (i + 1) parts n (omega arith)
            (ap (λ t. check_parts plan (i + 1) t parts) (sym c) ∙ q),
      )

  check_parts_of_exact :
      (i : ℕ) (parts : List CompletedPart)
      → i + length parts ≤ plan.part_count
      → AreExactFrom plan i parts
      → check_parts plan i (bytes_upto plan i) parts ≡ ok (bytes_upto plan (i + length parts))
  unfolding check_parts
  check_parts_of_exact i [] h e = rw add-zero
  check_parts_of_exact i (part ∷ parts) h (p, q, r) =
      let e : i + 1 + length parts ≡ i + suc (length parts) = omega arith in
      rw (round_of_exact i part (omega arith) p q) (
        check_parts_of_exact (i + 1) parts (omega arith) r
        ∙ ap (λ (k : ℕ). ok (bytes_upto plan k)) e)

  accepted_parts :
      (parts : List CompletedPart)
      → validate_completion plan parts ≡ ok tt
      → (length parts ≡ plan.part_count) × (check_parts plan 0 0 parts ≡ ok plan.file_size)
  unfolding validate_completion
  accepted_parts parts e = ground arith

  accept_parts :
      (parts : List CompletedPart)
      → length parts ≡ plan.part_count
      → check_parts plan 0 0 parts ≡ ok plan.file_size
      → validate_completion plan parts ≡ ok tt
  unfolding validate_completion
  accept_parts parts e g =
      let few : length parts < u32_mod = omega (arith, v.few) in
      rw (lt→ltb _ _ few) (rw (e, ==_refl plan.part_count, g, ==_refl plan.file_size))

  -- For a plan that covers its file exactly, a completion set is accepted if and only if it has the plan's number of parts, numbered from one in
  -- order, each of the size that the plan expects.
  pub validate_completion_iff :
      (parts : List CompletedPart)
      → (validate_completion plan parts ≡ ok tt)
        ↔ ((length parts ≡ plan.part_count) × AreExactFrom plan 0 parts)
  unfolding bytes_upto
  validate_completion_iff parts = (
    λ e.
        let (a, b) = accepted_parts parts e in
        (a, check_parts_ok 0 parts plan.file_size (omega arith) b),
    λ (a, b).
        let all_bytes = (bytes_upto-part_count plan v) in
        let count : 0 + length parts ≡ plan.part_count = omega arith in
        accept_parts parts a (
          check_parts_of_exact 0 parts (omega arith) b
          ∙ ap (λ (k : ℕ). ok (bytes_upto plan k)) count
          ∙ ap ok all_bytes),
  )
