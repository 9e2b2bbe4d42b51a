-- ===== src/Content/Transfer/Tiling.antt =====
-- Which parts a multipart upload sends.
use native.Mathlib.Decide.{dec_lt}
use silicon_briefcase.Prelude.{
  ℕ, zero, suc, ◌+◌, ◌≤◌, ◌<◌, ◌≡◌, ◌⊎◌, inl, inr, refl, sym, ap, subst, List, [], ◌∷◌, length,
  Result, ok, err, ok-injective, arith,
}
use silicon_briefcase.Error.{AppError}
use silicon_briefcase.Multipart.Plan.{MultipartPlan, InvalidPartNumber, expected_part_size}
use silicon_briefcase.Multipart.Plan.Bounds.{IsExact, pred_mul}
use silicon_briefcase.Multipart.Plan.Parts.{part_bytes, expected_part_size_lem}
use silicon_briefcase.Content.{UploadCommand, StagedContent, ClientCompletedPart}
use silicon_briefcase.Content.Calls.{Calls, ContentService, pure}
use silicon_briefcase.Content.Sessions.{upload_one_part}
use silicon_briefcase.Text.{Str}
use silicon_briefcase.Content.Calls.Steps.{try-values}
use silicon_briefcase.Content.Transfer.{
  part_offset, sha256_file_range, send_range, transfer_sized, transfer_part, with_others,
  transfer_parts,
}

-- The ranges of a plan that covers its file exactly lie end to end: every part starts where the one before it
-- ends, the first at zero, and the last ends with the file.
pub part_offset-tiles :
    (plan : MultipartPlan)
    → IsExact plan
    → (k : ℕ) → 1 ≤ k
    → k ≤ plan.part_count
    → (part_offset plan 1 ≡ 0)
      × ((size : ℕ) × (expected_part_size plan k ≡ ok size)
          × (1 ≤ size)
          × (((k < plan.part_count) × (part_offset plan k + size ≡ part_offset plan (k + 1)))
              ⊎ ((k ≡ plan.part_count) × (part_offset plan k + size ≡ plan.file_size))))
unfolding part_offset part_bytes
part_offset-tiles plan v k low high = (
  omega arith,
  (
    part_bytes plan k,
    expected_part_size_lem plan k v low high,
    ground (arith, v.not_long, v.smallest, pred_mul plan.part_count plan.part_size v.counted),
    elim (dec_lt k plan.part_count) [
      | yes before ↦ inl (before, ground (arith, pred_mul k plan.part_size low))
      | no last ↦ inr (omega arith, ground (arith, v.not_long))
    ],
  ),
)

-- Parts numbered one after the other.
abbrev pub AreNumberedFrom : ℕ → List ClientCompletedPart → Type 0
AreNumberedFrom n [] = Unit
AreNumberedFrom n (part ∷ parts) = (part.part_number ≡ n) × AreNumberedFrom (n + 1) parts

module _ (service : ContentService) (command : UploadCommand) (staged : StagedContent)
    (plan : MultipartPlan) (upload_id : ℕ) where
  made_number :
      (k : ℕ) (etag : Str) (part : ClientCompletedPart)
      → ◌≡◌ {A = Result ClientCompletedPart AppError}
          (ok (record { part_number = k; etag = etag }))
          (ok part)
      → part.part_number ≡ k
  made_number k etag part e = ap (λ q. q.part_number) (sym (ok-injective e))

  transfer_sized-number :
      (k : ℕ) (size : Result ℕ InvalidPartNumber) (calls : Calls) (part : ClientCompletedPart)
      → (transfer_sized service command staged plan upload_id k size calls).0 ≡ ok part
      → part.part_number ≡ k
  unfolding transfer_sized
  transfer_sized-number k (err _) calls part e = absurd (cc)
  transfer_sized-number k (ok size) calls part e =
      let (sha256, digested, sent) =
        try-values (sha256_file_range service staged.path (part_offset plan k) size)
          (λ sha256. send_range service command staged upload_id k (part_offset plan k) size sha256)
          calls e in
      let (etag, uploaded, made) =
        try-values
          (upload_one_part service upload_id k (record {
            path = staged.path;
            offset = part_offset plan k;
            size = size;
            sha256 = sha256;
          }))
          (λ etag. pure (ok (record { part_number = k; etag = etag }))) _ sent in
      made_number k etag part made

  -- The parts that a transfer reports for its completion are as many as were left, numbered in order from the
  -- first one.
  pub transfer_parts-AreNumberedFrom :
      (n left : ℕ) (calls : Calls) (parts : List ClientCompletedPart)
      → (transfer_parts service command staged plan upload_id n left calls).0 ≡ ok parts
      → (length parts ≡ left) × AreNumberedFrom n parts
  unfolding transfer_parts transfer_part
  transfer_parts-AreNumberedFrom n zero calls [] e = (refl, tt)
  transfer_parts-AreNumberedFrom n zero calls (_ ∷ _) e = absurd (cc)
  transfer_parts-AreNumberedFrom n (suc left) calls parts e =
      let (part, sent, followed) =
        try-values (transfer_part service command staged plan upload_id n)
          (with_others service command staged
            (transfer_parts service command staged plan upload_id (n + 1) left))
          calls e in
      let (rest, others, made) =
        try-values (transfer_parts service command staged plan upload_id (n + 1) left)
          (λ parts. pure (ok (part ∷ parts))) _ followed in
      let (counted, numbered) = transfer_parts-AreNumberedFrom (n + 1) left _ rest others in
      subst (λ ps. (length ps ≡ suc left) × AreNumberedFrom n ps) (ok-injective made)
        (ap suc counted, (transfer_sized-number n _ calls part sent, numbered))
