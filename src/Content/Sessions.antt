-- ===== src/Content/Sessions.antt =====
-- src/application/content.rs: the start of a multipart session, and its parts.
pub mod Promises
use silicon_briefcase.Prelude.{
  ℕ, ◌+◌, ◌*◌, ◌∷◌, [], ◌++◌, Bool, true, false, not, ◌&&◌, ◌||◌, Option, none, some, List, map,
  Result, ok, err, map_err, map_ok, ◌==◌, length, if◌then◌else◌,
}
use silicon_briefcase.Text.{Str, codes, str_eq, decimal, ends_with}
use silicon_briefcase.Error.{AppError, validation}
use silicon_briefcase.Storage.{
  StoredObject, StoredPart, ObjectMetadata, ObjectStoreError, ObjectChecksum, ObjectChecksumType,
  full_object, composite, ByteRange, RangeRequest,
}
use silicon_briefcase.Multipart.Plan.{
  MultipartPlan, MultipartPlanError, plan_for_file_size, expected_part_size, InvalidPartNumber,
}
use silicon_briefcase.Multipart.Completion.{
  CompletedPart, CompletionValidationError, validate_completion,
}
use silicon_briefcase.Content.{
  StagedContent, InitiateMultipartCommand, CompleteMultipartCommand, MultipartReceipt,
  ContentIntent, ContentDelivery, OpenObject, DownloadTarget, MultipartPreparation,
  MultipartPartTarget, MultipartCompletionPreparation, MultipartAbortTarget, Prepared, acquired,
  replay,
}
use silicon_briefcase.Content.Range.{resolve_range}
use silicon_briefcase.Content.Calls.{
  Calls, Action, Call, object, open_object, head, create_multipart, upload_part, UploadPartRequest,
  complete_multipart, abort_multipart, prepare_multipart, commit_multipart_initialization,
  authorize_multipart_part, record_multipart_part, prepare_multipart_completion,
  commit_multipart_completion, abort_multipart_session, authorize_download, record_content_access,
  now_utc, ContentService, perform, try, pure,
}
use silicon_briefcase.Content.Guard.{
  map_plan_error, map_object_error, UnpublishedObjectGuard, provider, guard_destination,
  guard_multipart, record_stored_object, release, publish,
}

abbrev pub multipart_session_ttl_seconds : ℕ
multipart_session_ttl_seconds = 24 * 60 * 60

module _ (service : ContentService) where
  module _ (command : InitiateMultipartCommand) where
    unfoldable pub release_initiation : Calls → Calls
    release_initiation = release service (codes "initiate_multipart_upload") command.idempotency

    unfoldable pub publish_session :
        MultipartPreparation
        → Result Str ObjectStoreError
        → Action (Result MultipartReceipt AppError)
    publish_session preparation (err e) calls = (err (map_object_error e), release_initiation calls)
    publish_session preparation (ok provider_upload_id) calls =
        publish service (guard_multipart preparation.target preparation.key provider_upload_id)
          release_initiation
          (commit_multipart_initialization command preparation provider_upload_id)
          service.repository.receipt calls

    unfoldable pub create_session :
        Prepared MultipartPreparation MultipartReceipt → Action (Result MultipartReceipt AppError)
    create_session (replay receipt) calls = (ok receipt, calls)
    create_session (acquired preparation) calls =
        let (result, created) =
          perform
            (object (create_multipart preparation.target preparation.key command.content_type))
            service.objects.identifier calls in
        publish_session preparation result created

    unfoldable pub initiate_planned :
        Result MultipartPlan MultipartPlanError → Action (Result MultipartReceipt AppError)
    initiate_planned (err e) calls = (err (map_plan_error e), calls)
    initiate_planned (ok plan) calls =
        let (now, timed) = perform now_utc service.clock calls in
        try
          (perform (prepare_multipart command plan (now + multipart_session_ttl_seconds))
            service.repository.session)
          create_session timed

    unfoldable pub initiate_multipart : Action (Result MultipartReceipt AppError)
    initiate_multipart = initiate_planned (plan_for_file_size command.size)

  module _ (upload_id part_number : ℕ) (staged : StagedContent) where
    abbrev pub part_request : MultipartPartTarget → UploadPartRequest
    part_request target = record {
      target = target.target;
      key = target.key;
      provider_upload_id = target.provider_upload_id;
      part_number = part_number;
      path = staged.path;
      offset = staged.offset;
      size = staged.size;
      checksum_sha256 = staged.sha256;
    }

    -- A part whose record fails: the session is aborted again, and the failure of that is not read.
    unfoldable pub part_recorded :
        MultipartPartTarget → Str → Result Unit AppError → Action (Result Str AppError)
    part_recorded target etag (ok _) calls = (ok etag, calls)
    part_recorded target etag (err e) calls =
        (err e, object (abort_multipart target.target target.key target.provider_upload_id) ∷ calls)

    unfoldable pub record_part : MultipartPartTarget → Str → Action (Result Str AppError)
    record_part target etag calls =
        let (result, recorded) =
          perform (record_multipart_part upload_id part_number etag staged)
            service.repository.recorded calls in
        part_recorded target etag result recorded

    -- The part is sent if it has the expected size.
    unfoldable pub send_if : MultipartPartTarget → Bool → Action (Result Str AppError)
    send_if target false = pure (err (validation (codes "invalid_part_size")))
    send_if target true =
        try (provider (object (upload_part (part_request target))) service.objects.identifier)
          (record_part target)

    unfoldable pub send_sized :
        MultipartPartTarget → Result ℕ InvalidPartNumber → Action (Result Str AppError)
    send_sized target (err _) = pure (err (validation (codes "invalid_part_number")))
    send_sized target (ok expected_size) = send_if target (staged.size == expected_size)

    unfoldable pub send_part : MultipartPartTarget → Action (Result Str AppError)
    send_part target = send_sized target (expected_part_size target.plan part_number)

    -- The operation `upload_part`.
    unfoldable pub upload_one_part : Action (Result Str AppError)
    upload_one_part =
        try
          (perform (authorize_multipart_part upload_id part_number) service.repository.part_target)
          send_part
