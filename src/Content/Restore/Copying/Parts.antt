-- ===== src/Content/Restore/Copying/Parts.antt =====
-- src/application/content.rs: what the loop over the parts of a large copy has moved.
use mathlib.Core.List.{append_assoc, append-nil}
use silicon_briefcase.Prelude.{
  ℕ, zero, suc, ◌+◌, ◌≡◌, ◌∙◌, sym, ap, subst, some, List, [], ◌∷◌, ◌++◌, Result, ok, map_err,
  map_err-ok, ok-injective, ok_or, checked_add, arith,
}
use silicon_briefcase.Text.{Str, codes}
use silicon_briefcase.Error.{AppError}
use silicon_briefcase.Storage.{StoredPart}
use silicon_briefcase.Multipart.Plan.{MultipartPlan, expected_part_size}
use silicon_briefcase.Content.{RestorePreparation}
use silicon_briefcase.Content.Calls.{
  Calls, Action, object, get_range_to_file, upload_part, create_temporary, read_to_end,
  ContentService, pure, try,
}
use silicon_briefcase.Content.Calls.Steps.{try-ok, try-values}
use silicon_briefcase.Content.Guard.{provider, map_object_error}
use silicon_briefcase.Content.Restore.Copying.{temporary_failure, temporary_file, read_back}
use silicon_briefcase.Content.Restore.Copying.Large.{
  plan_failure, upload_read, transfer_restore_part, transfer_restore_parts,
}

module _ (service : ContentService) (p : RestorePreparation) (source_etag upload_id : Str) where
  -- The calls that move one part through a temporary file: the range of the source, then its upload.
  module _ (number offset size : ℕ) (path : Str) (contents : List ℕ) (calls : Calls) where
    abbrev pub made : Calls
    made = create_temporary (codes "briefcase-restore-part-") ∷ calls

    abbrev pub fetched : Calls
    fetched =
        object (
          get_range_to_file (record {
            target = p.source_target;
            key = p.source_key;
            provider_version_id = p.source_provider_version_id;
            path = path;
            offset = offset;
            size = size;
            if_match = some source_etag;
          }))
        ∷ made

    abbrev pub read : Calls
    read = read_to_end path ∷ fetched

    abbrev pub sent : Calls
    sent =
        object (
          upload_part (record {
            target = p.destination_target;
            key = p.destination_key;
            provider_upload_id = upload_id;
            part_number = number;
            path = path;
            offset = 0;
            size = size;
            checksum_sha256 = service.sha256 contents;
          }))
        ∷ read

    -- One part was moved: its range was fetched, read and uploaded with its own digest.
    abbrev pub IsMoved : StoredPart → Type 0
    IsMoved part =
        (etag : Str) × (service.files.temporary made ≡ ok path)
        × (service.objects.done fetched ≡ ok tt)
        × (service.files.bytes read ≡ ok contents)
        × (service.objects.identifier sent ≡ ok etag)
        × (part ≡ record {
          part_number = number;
          etag = etag;
          checksum_sha256 = service.sha256 contents;
        })

  -- Parts moved in order: the number of the first one and how many there are, where its range starts,
  -- the calls before it, the parts, their bytes one after the other, and where the last range ends.
  pub data Moves (plan : MultipartPlan)
      : ℕ → ℕ → ℕ → Calls → List StoredPart → List ℕ → ℕ → Type 0 where
    none_left : {number offset : ℕ} {calls : Calls} → Moves plan number 0 offset calls [] [] offset
    moved :
        {number left offset end : ℕ} {calls : Calls} {parts : List StoredPart} {bytes : List ℕ}
        (size : ℕ) (path : Str) (contents : List ℕ) (part : StoredPart)
        → expected_part_size plan number ≡ ok size
        → IsMoved number offset size path contents calls part
        → Moves plan
            (number + 1)
            left
            (offset + size)
            (sent number offset size path contents calls)
            parts
            bytes
            end
        → Moves plan number (suc left) offset calls (part ∷ parts) (contents ++ bytes) end

  -- The upload of the bytes that were read: the part, the bytes digested so far, and its one call.
  upload_read-sent :
      (number offset size : ℕ) (digested : List ℕ) (path : Str) (contents : List ℕ) (calls : Calls)
      (result : StoredPart × List ℕ)
      → (upload_read service p source_etag upload_id number size digested path contents
          (read number offset size path contents calls)).0
        ≡ ok result
      → (etag : Str) × (service.objects.identifier (sent number offset size path contents calls)
          ≡ ok etag)
        × (result.0 ≡ record {
          part_number = number;
          etag = etag;
          checksum_sha256 = service.sha256 contents;
        })
        × (result.1 ≡ digested ++ contents)
        × ((upload_read service p source_etag upload_id number size digested path contents
              (read number offset size path contents calls)).1
            ≡ sent number offset size path contents calls)
  unfolding upload_read provider
  upload_read-sent number offset size digested path contents calls result e =
      let (etag, tagged, run) =
        try-ok
          (provider
            (object (
              upload_part (record {
                target = p.destination_target;
                key = p.destination_key;
                provider_upload_id = upload_id;
                part_number = number;
                path = path;
                offset = 0;
                size = size;
                checksum_sha256 = service.sha256 contents;
              })))
            service.objects.identifier)
          (λ etag. pure (
            ok (
              record {
                part_number = number;
                etag = etag;
                checksum_sha256 = service.sha256 contents;
              },
              digested ++ contents,
            )))
          _ e in
      let answer = ok-injective (sym (ap (λ r. r.0) run) ∙ e) in
      (
        etag,
        map_err-ok map_object_error _ tagged,
        sym (ap (λ r. r.0) answer),
        sym (ap (λ r. r.1) answer),
        ap (λ r. r.1) run,
      )

  transfer_restore_part-IsMoved :
      (number offset size : ℕ) (digested : List ℕ) (calls : Calls) (result : StoredPart × List ℕ)
      → (transfer_restore_part service p source_etag upload_id number offset size digested calls).0
        ≡ ok result
      → (path : Str) × (contents : List ℕ) × IsMoved number offset size path contents calls result.0
        × (result.1 ≡ digested ++ contents)
        × ((transfer_restore_part service p source_etag upload_id number offset size digested
              calls).1
            ≡ sent number offset size path contents calls)
  unfolding transfer_restore_part provider
  transfer_restore_part-IsMoved number offset size digested calls result e =
      let part_file = temporary_file service p (codes "briefcase-restore-part-") in
      let fetch : Str → Action (Result Unit AppError) = λ path.
        provider
          (object (
            get_range_to_file (record {
              target = p.source_target;
              key = p.source_key;
              provider_version_id = p.source_provider_version_id;
              path = path;
              offset = offset;
              size = size;
              if_match = some source_etag;
            })))
          service.objects.done in
      let upload = upload_read service p source_etag upload_id number size digested in
      let (path, named, run1) =
        try-ok part_file
          (λ path. try (fetch path) λ _. try (read_back service p path) (upload path)) calls e in
      let e1 = sym (ap (λ r. r.0) run1) ∙ e in
      let (_, answered, run2) =
        try-ok (fetch path) (λ _. try (read_back service p path) (upload path)) _ e1 in
      let e2 = sym (ap (λ r. r.0) run2) ∙ e1 in
      let (contents, found, run3) = try-ok (read_back service p path) (upload path) _ e2 in
      let e3 = sym (ap (λ r. r.0) run3) ∙ e2 in
      let (etag, tagged, part, digest, run4) =
        upload_read-sent number offset size digested path contents calls result e3 in
      (
        path,
        contents,
        (
          etag,
          map_err-ok temporary_failure _ named,
          map_err-ok map_object_error _ answered,
          map_err-ok temporary_failure _ found,
          tagged,
          part,
        ),
        digest,
        ap (λ r. r.1) (run1 ∙ run2 ∙ run3) ∙ run4,
      )

  next_offset :
      (offset size next : ℕ)
      → ok_or (checked_add offset size) (plan_failure size) ≡ ok next
      → next ≡ offset + size
  next_offset offset size next e = ground arith

  -- Where the loop succeeds, it moved the parts, and digested their bytes after those digested before.
  abbrev Moved : MultipartPlan → ℕ → ℕ → ℕ → List ℕ → Calls → List StoredPart × ℕ × List ℕ → Type 0
  Moved plan number left offset digested calls (parts, end, all) =
      (bytes : List ℕ) × Moves plan number left offset calls parts bytes end
      × (all ≡ digested ++ bytes)

  pub transfer_restore_parts-Moved :
      (plan : MultipartPlan) (number left offset : ℕ) (digested : List ℕ) (calls : Calls)
      (result : List StoredPart × ℕ × List ℕ)
      → (transfer_restore_parts service p source_etag upload_id plan number left offset digested
          calls).0
        ≡ ok result
      → Moved plan number left offset digested calls result
  unfolding transfer_restore_parts
  transfer_restore_parts-Moved plan number zero offset digested calls result e =
      subst (Moved plan number zero offset digested calls) (ok-injective e)
        ([], none_left, sym (append-nil digested))
  transfer_restore_parts-Moved plan number (suc left) offset digested calls result e =
      let one : ℕ → Action (Result (StoredPart × List ℕ) AppError) =
        λ size. transfer_restore_part service p source_etag upload_id number offset size digested in
      let others : ℕ → List ℕ → Action (Result (List StoredPart × ℕ × List ℕ) AppError) =
        λ next sent.
          transfer_restore_parts service p source_etag upload_id plan (number + 1) left next sent in
      let (size, expected, e1) =
        try-values (pure (map_err plan_failure (expected_part_size plan number)))
          (λ size. try (one size) λ sent.
            try (pure (ok_or (checked_add offset size) (plan_failure size)))
              λ next. try (others next sent.1) λ rest. pure (ok (sent.0 ∷ rest.0, rest.1, rest.2)))
          calls e in
      let (sent_part, transferred, e2) =
        try-values (one size)
          (λ sent.
            try (pure (ok_or (checked_add offset size) (plan_failure size)))
              λ next. try (others next sent.1) λ rest. pure (ok (sent.0 ∷ rest.0, rest.1, rest.2)))
          calls e1 in
      let (next, added, e3) =
        try-values (pure (ok_or (checked_add offset size) (plan_failure size)))
          (λ next.
            try (others next sent_part.1) λ rest. pure (ok (sent_part.0 ∷ rest.0, rest.1, rest.2)))
          _ e2 in
      let (rest, followed, e4) =
        try-values (others next sent_part.1)
          (λ rest. pure (ok (sent_part.0 ∷ rest.0, rest.1, rest.2))) _ e3 in
      let (path, contents, part, digest, history) =
        transfer_restore_part-IsMoved number offset size digested calls sent_part transferred in
      let (bytes, moves, all) =
        transfer_restore_parts-Moved plan (number + 1) left next sent_part.1 _ rest followed in
      let here : Moves plan (number + 1) left (offset + size)
          (sent number offset size path contents calls) rest.0 bytes rest.1 =
        subst
          (λ o.
            Moves plan (number + 1) left o (sent number offset size path contents calls) rest.0
              bytes rest.1)
          (next_offset offset size next added)
          (subst (λ h. Moves plan (number + 1) left next h rest.0 bytes rest.1) history moves) in
      subst (Moved plan number (suc left) offset digested calls) (ok-injective e4) (
        contents ++ bytes,
        moved size path contents sent_part.0 (map_err-ok plan_failure _ expected) part here,
        all ∙ ap (λ ts. ts ++ bytes) digest ∙ append_assoc digested contents bytes,
      )
