-- ===== src/Content/Restore/Copying/Large.antt =====
-- src/application/content.rs: the copy of a large version, part by part.
use silicon_briefcase.Prelude.{
  ℕ, zero, suc, ◌+◌, ◌∷◌, [], ◌++◌, Bool, true, false, ◌&&◌, none, some, List, Result, ok, err,
  map_err, ok_or, checked_add, ◌==◌, if◌then◌else◌,
}
use silicon_briefcase.Text.{Str, codes}
use silicon_briefcase.Error.{AppError}
use silicon_briefcase.Storage.{
  ObjectChecksum, StoredObject, StoredPart, ObjectMetadata, ObjectStoreError,
}
use silicon_briefcase.Multipart.Plan.{MultipartPlan, expected_part_size}
use silicon_briefcase.Content.{RestorePreparation}
use silicon_briefcase.Content.Calls.{
  Action, object, head, get_range_to_file, create_multipart, upload_part, complete_multipart,
  ContentService, perform, try, pure,
}
use silicon_briefcase.Content.Guard.{
  map_object_error, provider, UnpublishedObjectGuard, guard_multipart, disarm, cleanup_now, leave,
}
use silicon_briefcase.Content.Restore.{
  has_checksum, conflict_code, validate_restore_source, validate_restored_object,
  source_checksum_matches, full_object_checksum, composite_checksum,
}
use silicon_briefcase.Content.Restore.Copying.{found_object, temporary_file, read_back}

abbrev pub plan_failure : {A : Type 0} → A → AppError
plan_failure _ = AppError.internal (codes "multipart_plan")

module _ (service : ContentService) (preparation : RestorePreparation)
    (source_etag upload_id : Str) where
  -- `sha256_file_and_update` and the upload of what it read: a part, and the bytes digested so far.
  unfoldable pub upload_read :
      ℕ → ℕ → List ℕ → Str → List ℕ → Action (Result (StoredPart × List ℕ) AppError)
  upload_read part_number size digested path contents =
      try
        (provider
          (object (
            upload_part (record {
              target = preparation.destination_target;
              key = preparation.destination_key;
              provider_upload_id = upload_id;
              part_number = part_number;
              path = path;
              offset = 0;
              size = size;
              checksum_sha256 = service.sha256 contents;
            })))
          service.objects.identifier)
        (λ etag. pure (
          ok (
            record {
              part_number = part_number;
              etag = etag;
              checksum_sha256 = service.sha256 contents;
            },
            digested ++ contents,
          )))

  -- `LargeRestoreTransfer::transfer_part`.
  unfoldable pub transfer_restore_part :
      ℕ → ℕ → ℕ → List ℕ → Action (Result (StoredPart × List ℕ) AppError)
  transfer_restore_part part_number offset size digested =
      try (temporary_file service preparation (codes "briefcase-restore-part-")) λ path.
        try
          (provider
            (object (
              get_range_to_file (record {
                target = preparation.source_target;
                key = preparation.source_key;
                provider_version_id = preparation.source_provider_version_id;
                path = path;
                offset = offset;
                size = size;
                if_match = some source_etag;
              })))
            service.objects.done)
          λ _. try (read_back service preparation path) (upload_read part_number size digested path)

  -- The loop over the part numbers, from one on, with how many are left: the offset and the bytes digested
  -- before it, and the parts and the final values after it.
  unfoldable pub transfer_restore_parts :
      MultipartPlan → ℕ → ℕ → ℕ → List ℕ → Action (Result (List StoredPart × ℕ × List ℕ) AppError)
  transfer_restore_parts plan part_number zero offset digested = pure (ok ([], offset, digested))
  transfer_restore_parts plan part_number (suc left) offset digested =
      try (pure (map_err plan_failure (expected_part_size plan part_number))) λ size.
        try (transfer_restore_part part_number offset size digested) λ sent.
          try (pure (ok_or (checked_add offset size) (plan_failure size))) λ next.
            try (transfer_restore_parts plan (part_number + 1) left next sent.1)
              λ rest. pure (ok (sent.0 ∷ rest.0, rest.1, rest.2))

  unfoldable pub reconcile_completion :
      ObjectChecksum
      → ObjectStoreError
      → Result ObjectMetadata ObjectStoreError
      → Result StoredObject AppError
  reconcile_completion expected completion_error (err _) = err (map_object_error completion_error)
  reconcile_completion expected completion_error (ok metadata) =
      if (metadata.size == preparation.size) && has_checksum metadata.checksum expected
      then ok (found_object preparation metadata)
      else err (map_object_error completion_error)

  -- `complete_or_reconcile`, from the answer of the completion.
  unfoldable pub completed_or_found :
      ObjectChecksum → Result StoredObject ObjectStoreError → Action (Result StoredObject AppError)
  completed_or_found expected (ok stored) calls = (ok stored, calls)
  completed_or_found expected (err e) calls =
      let (found, looked) =
        perform (object (head preparation.destination_target preparation.destination_key none))
          service.objects.metadata calls in
      (reconcile_completion expected e found, looked)

  unfoldable pub complete_or_reconcile :
      List StoredPart → ObjectChecksum → Action (Result StoredObject AppError)
  complete_or_reconcile parts expected calls =
      let (result, completed) =
        perform
          (object (
            complete_multipart preparation.destination_target preparation.destination_key upload_id
              parts preparation.size))
          service.objects.stored calls in
      completed_or_found expected result completed

  unfoldable pub validate_stored :
      ObjectChecksum → StoredObject → Action (Result StoredObject AppError)
  validate_stored composite stored =
      try (pure (validate_restored_object stored preparation composite)) (λ _. pure (ok stored))

  -- The end of `transfer_large_restore_parts`, with both checksums.
  unfoldable pub finish_if :
      List StoredPart → ObjectChecksum → Bool → Action (Result StoredObject AppError)
  finish_if parts composite false = pure (conflict_code (codes "version_checksum_mismatch"))
  finish_if parts composite true =
      try (complete_or_reconcile parts composite) (validate_stored composite)

  unfoldable pub finish_restore :
      List StoredPart → ObjectChecksum → ObjectChecksum → Action (Result StoredObject AppError)
  finish_restore parts full composite =
      finish_if parts composite (source_checksum_matches preparation.checksum full composite)

  abbrev pub full_checksum : List ℕ → Result ObjectChecksum AppError
  full_checksum digested =
      full_object_checksum service.sha256 service.encode_base64 service.decode_base64
        (service.sha256 digested)

  abbrev pub parts_checksum : List StoredPart → Result ObjectChecksum AppError
  parts_checksum parts =
      composite_checksum service.sha256 service.encode_base64 service.decode_base64 parts

  unfoldable pub finish_with_full :
      List StoredPart → ObjectChecksum → Action (Result StoredObject AppError)
  finish_with_full parts full = try (pure (parts_checksum parts)) (finish_restore parts full)

  unfoldable pub check_sized :
      List StoredPart → List ℕ → Bool → Action (Result StoredObject AppError)
  check_sized parts digested false = pure (err (plan_failure digested))
  check_sized parts digested true = try (pure (full_checksum digested)) (finish_with_full parts)

  unfoldable pub check_transferred :
      List StoredPart × ℕ × List ℕ → Action (Result StoredObject AppError)
  check_transferred (parts, offset, digested) =
      check_sized parts digested (offset == preparation.size)

  unfoldable pub transfer_large_restore_parts :
      MultipartPlan → Action (Result StoredObject AppError)
  transfer_large_restore_parts plan =
      try (transfer_restore_parts plan 1 plan.part_count 0 []) check_transferred

  -- The guard of the session, after the transfer.
  unfoldable pub guard_transfer :
      UnpublishedObjectGuard → Result StoredObject AppError → Action (Result StoredObject AppError)
  guard_transfer guard (ok stored) calls = leave service (disarm guard) (ok stored) calls
  guard_transfer guard (err e) calls =
      let (guard', cleaned) = cleanup_now service guard calls in
      leave service guard' (err e) cleaned

module _ (service : ContentService) (preparation : RestorePreparation) (plan : MultipartPlan) where
  unfoldable pub transfer_guarded : Str → Str → Action (Result StoredObject AppError)
  transfer_guarded source_etag upload_id calls =
      let guard =
        guard_multipart preparation.destination_target preparation.destination_key upload_id in
      let (result, transferred) =
        transfer_large_restore_parts service preparation source_etag upload_id plan calls in
      guard_transfer service preparation source_etag upload_id guard result transferred

  unfoldable pub copy_large_between_targets : Action (Result StoredObject AppError)
  copy_large_between_targets =
      try
        (provider
          (object (
            head preparation.source_target preparation.source_key
              preparation.source_provider_version_id))
          service.objects.metadata)
        λ metadata. try (pure (validate_restore_source metadata preparation)) λ _.
          try (pure (ok_or metadata.etag (AppError.internal (codes "object_etag_unavailable"))))
            λ source_etag.
              try
                (provider
                  (object (
                    create_multipart preparation.destination_target preparation.destination_key
                      preparation.content_type))
                  service.objects.identifier)
                (transfer_guarded source_etag)
