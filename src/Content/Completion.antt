-- ===== src/Content/Completion.antt =====
-- src/application/content.rs: the completion and the abort of a multipart session.
pub mod Promises
use silicon_briefcase.Prelude.{
  ℕ, ◌+◌, ◌*◌, ◌∷◌, [], ◌++◌, Bool, true, false, not, ◌&&◌, ◌||◌, Option, none, some, List, map,
  Result, ok, err, map_err, map_ok, ◌==◌, length, if◌then◌else◌,
}
use silicon_briefcase.Text.{Str, codes, str_eq, decimal, ends_with}
use silicon_briefcase.Error.{AppError, validation}
use silicon_briefcase.Storage.{
  StoredObject, StoredPart, ObjectMetadata, ObjectStoreError, ObjectChecksum, ObjectChecksumType,
  full_object, composite, ByteRange, RangeRequest,
}
use silicon_briefcase.Multipart.Plan.{
  MultipartPlan, MultipartPlanError, plan_for_file_size, expected_part_size, InvalidPartNumber,
}
use silicon_briefcase.Multipart.Completion.{
  CompletedPart, CompletionValidationError, validate_completion,
}
use silicon_briefcase.Content.{
  StagedContent, InitiateMultipartCommand, CompleteMultipartCommand, MultipartReceipt,
  ContentIntent, ContentDelivery, OpenObject, DownloadTarget, MultipartPreparation,
  MultipartPartTarget, MultipartCompletionPreparation, MultipartAbortTarget, Prepared, acquired,
  replay,
}
use silicon_briefcase.Content.Range.{resolve_range}
use silicon_briefcase.Content.Calls.{
  Calls, Action, Call, object, open_object, head, create_multipart, upload_part, complete_multipart,
  abort_multipart, prepare_multipart, commit_multipart_initialization, authorize_multipart_part,
  record_multipart_part, prepare_multipart_completion, commit_multipart_completion,
  abort_multipart_session, authorize_download, record_content_access, now_utc, ContentService,
  perform, try, pure,
}
use silicon_briefcase.Content.Guard.{
  map_plan_error, map_object_error, UnpublishedObjectGuard, provider, guard_destination,
  guard_multipart, record_stored_object, release, publish,
}

abbrev pub is_composite : ObjectChecksumType → Bool
is_composite composite = true
is_composite full_object = false

abbrev pub stored_part : CompletedPart → StoredPart
stored_part part = record {
  part_number = part.part_number;
  etag = part.etag;
  checksum_sha256 = part.checksum_sha256;
}

-- `reconcile_completed_multipart`: what is there is accepted with the size of the plan and a checksum
-- composed of as many parts.
unfoldable pub reconcile_metadata :
    MultipartCompletionPreparation → ℕ → ObjectMetadata → Result StoredObject AppError
reconcile_metadata preparation expected_part_count metadata =
    if metadata.size == preparation.plan.file_size
    then elim metadata.checksum [
      | none ↦ err (AppError.internal (codes "object_checksum_unavailable"))
      | some checksum ↦
          if is_composite checksum.checksum_type
            && ends_with (b'-' ∷ decimal expected_part_count) checksum.encoded_value
          then ok (record {
            key = preparation.key;
            etag = metadata.etag;
            provider_version_id = metadata.provider_version_id;
            size = metadata.size;
            checksum = some checksum;
          })
          else err (AppError.conflict (codes "multipart_reconciliation_mismatch"))
    ]
    else err (AppError.conflict (codes "multipart_reconciliation_mismatch"))

module _ (service : ContentService) where
  abbrev pub look_at_key : MultipartCompletionPreparation → Action (Result ObjectMetadata AppError)
  look_at_key preparation =
      provider (object (head preparation.target preparation.key none)) service.objects.metadata

  unfoldable pub reconcile_completed_multipart :
      MultipartCompletionPreparation → ℕ → Action (Result StoredObject AppError)
  reconcile_completed_multipart preparation expected_part_count =
      try (look_at_key preparation)
        (λ metadata. pure (reconcile_metadata preparation expected_part_count metadata))

  -- The object that the provider assembled, or that a look at the key finds assembled.
  unfoldable pub assembled_or_found :
      MultipartCompletionPreparation
      → Result StoredObject ObjectStoreError
      → Action (Result StoredObject AppError)
  assembled_or_found preparation (ok stored) calls = (ok stored, calls)
  assembled_or_found preparation (err e) calls =
      let (reconciled, looked) =
        reconcile_completed_multipart preparation (length preparation.parts) calls in
      (map_err (λ _. map_object_error e) reconciled, looked)

  unfoldable pub assemble : MultipartCompletionPreparation → Action (Result StoredObject AppError)
  assemble preparation calls =
      let (result, completed) =
        perform
          (object (
            complete_multipart preparation.target preparation.key preparation.provider_upload_id
              (map stored_part preparation.parts) preparation.plan.file_size))
          service.objects.stored calls in
      assembled_or_found preparation result completed

  module _ (command : CompleteMultipartCommand) where
    unfoldable pub publish_completion :
        MultipartCompletionPreparation → StoredObject → Action (Result ℕ AppError)
    publish_completion preparation stored =
        publish service
          (record_stored_object (guard_destination preparation.target preparation.key) stored)
          (λ calls. calls) (commit_multipart_completion command preparation stored)
          service.repository.entry

    -- The rest of the completion, behind the check of the parts.
    unfoldable pub complete_validated :
        MultipartCompletionPreparation
        → Result Unit CompletionValidationError
        → Action (Result ℕ AppError)
    complete_validated preparation (err _) =
        pure (err (validation (codes "invalid_multipart_completion")))
    complete_validated preparation (ok _) =
        try (assemble preparation) (publish_completion preparation)

    unfoldable pub complete_prepared :
        Prepared MultipartCompletionPreparation ℕ → Action (Result ℕ AppError)
    complete_prepared (replay entry_id) = pure (ok entry_id)
    complete_prepared (acquired preparation) =
        complete_validated preparation (validate_completion preparation.plan preparation.parts)

    -- The operation `complete_multipart`.
    unfoldable pub complete_session : Action (Result ℕ AppError)
    complete_session =
        try (perform (prepare_multipart_completion command) service.repository.completion)
          complete_prepared

  unfoldable pub abort_provider_session :
      Option MultipartAbortTarget → Action (Result Unit AppError)
  abort_provider_session none = pure (ok tt)
  abort_provider_session (some target) =
      provider (object (abort_multipart target.target target.key target.provider_upload_id))
        service.objects.done

  -- The operation `abort_multipart`.
  unfoldable pub abort_session : ℕ → Action (Result Unit AppError)
  abort_session upload_id =
      try (perform (abort_multipart_session upload_id) service.repository.abort_target)
        abort_provider_session
