-- ===== src/Content/Reading.antt =====
-- src/application/content.rs: the reading of a file.
pub mod Promises
use silicon_briefcase.Prelude.{
  ℕ, ◌+◌, ◌*◌, ◌∷◌, [], ◌++◌, Bool, true, false, not, ◌&&◌, ◌||◌, Option, none, some, List, map,
  Result, ok, err, map_err, map_ok, ◌==◌, length, if◌then◌else◌,
}
use silicon_briefcase.Text.{Str, codes, str_eq, decimal, ends_with}
use silicon_briefcase.Error.{AppError, validation}
use silicon_briefcase.Storage.{
  StoredObject, StoredPart, ObjectMetadata, ObjectStoreError, ObjectChecksum, ObjectChecksumType,
  full_object, composite, ByteRange, RangeRequest,
}
use silicon_briefcase.Multipart.Plan.{
  MultipartPlan, MultipartPlanError, plan_for_file_size, expected_part_size, InvalidPartNumber,
}
use silicon_briefcase.Multipart.Completion.{
  CompletedPart, CompletionValidationError, validate_completion,
}
use silicon_briefcase.Content.{
  StagedContent, InitiateMultipartCommand, CompleteMultipartCommand, MultipartReceipt,
  ContentIntent, ContentDelivery, OpenObject, DownloadTarget, MultipartPreparation,
  MultipartPartTarget, MultipartCompletionPreparation, MultipartAbortTarget, Prepared, acquired,
  replay,
}
use silicon_briefcase.Content.Range.{resolve_range}
use silicon_briefcase.Content.Calls.{
  Calls, Action, Call, object, open_object, OpenObjectRequest, head, create_multipart, upload_part,
  complete_multipart, abort_multipart, prepare_multipart, commit_multipart_initialization,
  authorize_multipart_part, record_multipart_part, prepare_multipart_completion,
  commit_multipart_completion, abort_multipart_session, authorize_download, record_content_access,
  now_utc, ContentService, perform, try, pure,
}
use silicon_briefcase.Content.Guard.{
  map_plan_error, map_object_error, UnpublishedObjectGuard, provider, guard_destination,
  guard_multipart, record_stored_object, release, publish,
}

abbrev pub delivered : DownloadTarget → OpenObject → ContentDelivery
delivered target opened = record {
  filename = target.filename;
  content_type = target.content_type;
  total_size = opened.total_size;
  range = opened.range;
  etag = opened.etag;
  body = opened.body;
}

abbrev pub open_request : DownloadTarget → Option ByteRange → OpenObjectRequest
open_request target range = record {
  target = target.target;
  key = target.key;
  provider_version_id = target.provider_version_id;
  range = range;
}

module _ (service : ContentService) where
  module _ (entry_id : ℕ) (intent : ContentIntent) (request : Option RangeRequest) where
    unfoldable pub deliver : DownloadTarget → OpenObject → Action (Result ContentDelivery AppError)
    deliver target opened =
        try (perform (record_content_access entry_id intent) service.repository.recorded)
          (λ _. pure (ok (delivered target opened)))

    unfoldable pub open_target :
        DownloadTarget → Option ByteRange → Action (Result ContentDelivery AppError)
    open_target target range =
        try (provider (object (open_object (open_request target range))) service.objects.opened)
          (deliver target)

    -- The range of a request, resolved where there is one.
    unfoldable pub resolve_request : DownloadTarget → Result (Option ByteRange) AppError
    resolve_request target = elim request [
      | none ↦ ok none
      | some range ↦ map_ok some (resolve_range range target.size)
    ]

    unfoldable pub open_content : Action (Result ContentDelivery AppError)
    open_content =
        try (perform (authorize_download entry_id) service.repository.download_target)
          (λ target. try (pure (resolve_request target)) (open_target target))
