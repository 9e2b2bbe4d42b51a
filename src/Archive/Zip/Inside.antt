-- ===== src/Archive/Zip/Inside.antt =====
-- Where the directory of a zip archive is found.
use silicon_briefcase.Prelude.{
  ℕ, zero, suc, ◌+◌, ◌-◌, ◌≤◌, ◌≡◌, ◌≢◌, subst, Bool, true, false, Bool-cases, inl, inr, some, List,
  length, ok, >>=-eq-ok, ok_or, arith, if◌then◌else◌,
}
use native.Mathlib.Decide.{dec_lt}
use silicon_briefcase.Archive.Zip.{
  ZipDirectory, directory, is_end_record, find_end, u16_at, u32_at, locate_zip64, directory_before,
  read_end_record, locate_zip_directory,
}

-- The record that is found is one, it ends inside the bytes, and no later position has another.
pub find_end-IsEnd :
    (tail : List ℕ) (bound at : ℕ)
    → find_end tail bound ≡ some at
    → (is_end_record tail at ≡ true)
      × (at ≤ bound)
      × ((later : ℕ) → at + 1 ≤ later → later ≤ bound → is_end_record tail later ≡ false)
unfolding find_end
find_end-IsEnd tail zero at e = elim (Bool-cases (is_end_record tail 0)) [
  | inl h ↦
      let here : 0 ≡ at = ground arith in
      (
        subst (λ k. is_end_record tail k ≡ true) here h,
        omega (arith, here),
        λ later low high. absurd (omega arith),
      )
  | inr h ↦ absurd (ground arith)
]
find_end-IsEnd tail (suc bound) at e = elim (Bool-cases (is_end_record tail (suc bound))) [
  | inl h ↦
      let here : suc bound ≡ at = ground arith in
      (
        subst (λ k. is_end_record tail k ≡ true) here h,
        omega (arith, here),
        λ later low high. absurd (omega (arith, here)),
      )
  | inr h ↦
      let (ends, below, others) = find_end-IsEnd tail bound at (ground arith) in
      (
        ends,
        omega (arith, below),
        λ later low high. elim (dec_lt bound later) [
          | no inside ↦ others later low (omega arith)
          | yes top ↦
              let last : suc bound ≡ later = omega arith in
              subst (λ k. is_end_record tail k ≡ false) last h
        ],
      )
]

is_end_record-le : (tail : List ℕ) (at : ℕ) → is_end_record tail at ≡ true → at + 22 ≤ length tail
unfolding is_end_record
is_end_record-le tail at h = ground arith

directory_before-le :
    (found d : ZipDirectory) (end : ℕ)
    → directory_before found end ≡ ok (directory d)
    → d.offset + d.size ≤ end
unfolding directory_before
directory_before-le found d end e = ground arith

locate_zip64-record :
    (tail : List ℕ) (end_at : ℕ) (d : ZipDirectory) → locate_zip64 tail end_at ≢ ok (directory d)
unfolding locate_zip64
locate_zip64-record tail end_at d e = ground arith

either-le :
    (tail : List ℕ) (end_at end : ℕ) (found d : ZipDirectory) (is_zip64 : Bool)
    → (if is_zip64 then locate_zip64 tail end_at else directory_before found end) ≡ ok (directory d)
    → d.offset + d.size ≤ end
either-le tail end_at end found d true e = absurd (locate_zip64-record tail end_at d e)
either-le tail end_at end found d false e = directory_before-le found d end e

read_end_record-le :
    (tail : List ℕ) (tail_start end_at : ℕ) (d : ZipDirectory)
    → read_end_record tail tail_start end_at ≡ ok (directory d)
    → d.offset + d.size ≤ tail_start + end_at
unfolding read_end_record
read_end_record-le tail tail_start end_at d e =
    let (entries, _, e1) = >>=-eq-ok (ok_or (u16_at tail (end_at + 10)) _) _ e in
    let (size, _, e2) = >>=-eq-ok (ok_or (u32_at tail (end_at + 12)) _) _ e1 in
    let (offset, _, e3) = >>=-eq-ok (ok_or (u32_at tail (end_at + 16)) _) _ e2 in
    either-le tail end_at (tail_start + end_at) _ d _ e3

-- The directory that is found lies in the archive, before the last end record of its tail: nothing
-- outside the file is read for it, whatever the record says.
pub locate_zip_directory-inside :
    (tail : List ℕ) (total_size : ℕ) (d : ZipDirectory)
    → length tail ≤ total_size
    → locate_zip_directory tail total_size ≡ ok (directory d)
    → (end_at : ℕ) × (is_end_record tail end_at ≡ true)
      × ((later : ℕ)
          → end_at + 1 ≤ later
          → later ≤ length tail - 22
          → is_end_record tail later ≡ false)
      × (d.offset + d.size ≤ total_size - length tail + end_at)
      × (total_size - length tail + end_at + 22 ≤ total_size)
unfolding locate_zip_directory
locate_zip_directory-inside tail total_size d h e =
    let (end_at, found, e1) = >>=-eq-ok (ok_or (find_end tail (length tail - 22)) _) _ e in
    let (ends, below, others) = find_end-IsEnd tail (length tail - 22) end_at (ground arith) in
    (
      end_at,
      ends,
      others,
      read_end_record-le tail (total_size - length tail) end_at d e1,
      omega (arith, is_end_record-le tail end_at ends),
    )
