-- ===== src/Content/Transfer/Digest.antt =====
-- What the digest of a range of a staged file is computed over.
use mathlib.Core.List.{append_assoc, append-nil}
use silicon_briefcase.Prelude.{
  ℕ, zero, suc, ◌+◌, ◌-◌, ◌≤◌, ◌<◌, ◌≡◌, ◌∙◌, refl, sym, ap, List, [], ◌∷◌, ◌++◌, length, take,
  drop, length-take, length-drop, take-append_drop, drop-drop, Result, ok, map_err, arith,
}
use silicon_briefcase.Text.{Str}
use silicon_briefcase.Error.{AppError}
use silicon_briefcase.Content.Calls.{
  Calls, Action, open_file, seek_file, read_file, ContentService, FileSystem, pure,
}
use silicon_briefcase.Content.Calls.Steps.{try-of_ok}
use silicon_briefcase.Content.Transfer.{
  wanted_bytes, file_step, temporary_storage, after_read, read_exactly, digest_sought,
  digest_opened, sha256_file_range,
}

-- The file system serves a file: it opens and seeks, and a read inside it gives some of the bytes at
-- its position, at least one and at most as many as wanted.
pub record Serves (files : FileSystem) (path : Str) (contents : List ℕ) : Type 0 where
  pub opens : (calls : Calls) → files.prepared (open_file path ∷ calls) ≡ ok tt
  pub seeks : (offset : ℕ) (calls : Calls) → files.prepared (seek_file path offset ∷ calls) ≡ ok tt
  pub reads :
      (position wanted : ℕ) (calls : Calls)
      → 1 ≤ wanted
      → position < length contents
      → (n : ℕ) × (1 ≤ n)
        × (n ≤ wanted)
        × (n ≤ length contents - position)
        × (files.bytes (read_file path position wanted ∷ calls)
            ≡ ok (take n (drop position contents)))

wanted_bytes-le : (remaining : ℕ) → wanted_bytes remaining ≤ remaining
wanted_bytes-le remaining = ground arith

slices :
    (contents digested : List ℕ) (position n remaining : ℕ)
    → n ≤ remaining
    → length (take n (drop position contents)) ≡ n
    → let bytes = take n (drop position contents) in
      (digested ++ bytes)
        ++ take (remaining - length bytes) (drop (position + length bytes) contents)
      ≡ digested ++ take remaining (drop position contents)
slices contents digested position n remaining h counted =
    let rest : n + (remaining - n) ≡ remaining = omega arith in
    rw counted (
      append_assoc digested (take n (drop position contents)) _
      ∙ ap (λ ts. digested ++ ts)
          (ap (λ ts. take n (drop position contents) ++ take (remaining - n) ts)
              (sym (drop-drop position n contents))
            ∙ take-append_drop n (remaining - n) (drop position contents)
            ∙ ap (λ k. take k (drop position contents)) rest))

module _ (service : ContentService) (path : Str) where
  after_read-nonempty :
      (rest : ℕ → ℕ → List ℕ → Action (Result (List ℕ) AppError)) (position remaining : ℕ)
      (digested bytes : List ℕ)
      → 1 ≤ length bytes
      → after_read service path rest position remaining digested bytes
        ≡ rest (position + length bytes) (remaining - length bytes) (digested ++ bytes)
  unfolding after_read
  after_read-nonempty rest position remaining digested [] h = absurd (omega arith)
  after_read-nonempty rest position remaining digested (byte ∷ bytes) h = refl

  module _ (contents : List ℕ) (serves : Serves service.files path contents) where
    read_exactly_lem :
        (fuel position remaining : ℕ) (digested : List ℕ) (calls : Calls)
        → remaining ≤ fuel
        → position + remaining ≤ length contents
        → (read_exactly service path fuel position remaining digested calls).0
          ≡ ok (digested ++ take remaining (drop position contents))
    unfolding read_exactly
    read_exactly_lem zero position zero digested calls h g = ap ok (sym (append-nil digested))
    read_exactly_lem zero position (suc more) digested calls h g = absurd (omega arith)
    read_exactly_lem (suc fuel) position zero digested calls h g = ap ok (sym (append-nil digested))
    read_exactly_lem (suc fuel) position (suc more) digested calls h g =
        let (n, some, few, inside, answer) =
          serves.reads position (wanted_bytes (suc more)) calls (ground arith) (omega arith) in
        let bytes = take n (drop position contents) in
        let counted : length bytes ≡ n =
          length-take n (drop position contents) (omega (arith, length-drop position contents)) in
        ap (λ r. r.0)
          (try-of_ok
            (file_step service path (read_file path position (wanted_bytes (suc more)))
              service.files.bytes)
            (after_read service path (read_exactly service path fuel) position (suc more) digested)
            calls (ap (map_err temporary_storage) answer))
        ∙ ap (λ act. (act (read_file path position (wanted_bytes (suc more)) ∷ calls)).0)
            (after_read-nonempty (read_exactly service path fuel) position (suc more) digested bytes
              (omega (arith, counted)))
        ∙ read_exactly_lem fuel _ _ (digested ++ bytes) _ (omega (arith, counted))
            (omega (arith, counted, wanted_bytes-le (suc more)))
        ∙ ap ok (
            slices contents digested position n (suc more)
              (omega (arith, wanted_bytes-le (suc more))) counted)

    -- With a file system that serves the file, however short its reads, the digest of a range inside
    -- the file succeeds and is that of exactly the bytes of the range.
    pub sha256_file_range_lem :
        (offset count : ℕ) (calls : Calls)
        → offset + count ≤ length contents
        → (sha256_file_range service path offset count calls).0
          ≡ ok (service.sha256 (take count (drop offset contents)))
    unfolding sha256_file_range
    sha256_file_range_lem offset count calls h =
        let opened = open_file path ∷ calls in
        let sought = seek_file path offset ∷ opened in
        ap (λ r. r.0)
          (try-of_ok (file_step service path (open_file path) service.files.prepared)
              (λ _. digest_opened service path offset count) calls
              (ap (map_err temporary_storage) (serves.opens calls))
            ∙ try-of_ok (file_step service path (seek_file path offset) service.files.prepared)
                (λ _. digest_sought service path offset count) opened
                (ap (map_err temporary_storage) (serves.seeks offset opened))
            ∙ try-of_ok (read_exactly service path count offset count [])
                (λ digested. pure (ok (service.sha256 digested))) sought
                (read_exactly_lem count offset count [] sought (omega arith) h))
