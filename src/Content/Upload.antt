-- ===== src/Content/Upload.antt =====
-- src/application/content.rs: the upload of a file in a single request.
pub mod Outcomes
pub mod Promises
use silicon_briefcase.Prelude.{ℕ, ◌∷◌, Option, none, some, Result, ok, err, ltb, if◌then◌else◌}
use silicon_briefcase.Text.{Str, codes}
use silicon_briefcase.Error.{AppError, payload_too_large}
use silicon_briefcase.Storage.{StoredObject, ObjectStoreError}
use silicon_briefcase.Multipart.Plan.{single_upload_max_bytes}
use silicon_briefcase.Content.{
  SmallUploadCommand, StagedContent, SmallUploadPreparation, Prepared, acquired, replay,
}
use silicon_briefcase.Content.Calls.{
  Calls, Action, Call, object, put_file, prepare_small_upload, commit_small_upload, ContentService,
  perform, try,
}
use silicon_briefcase.Content.Guard.{
  map_object_error, UnpublishedObjectGuard, guard_destination, record_stored_object, release, leave,
  compensate, publish,
}

module _ (service : ContentService) (command : SmallUploadCommand) (staged : StagedContent) where
  unfoldable pub release_upload : Calls → Calls
  release_upload = release service (codes "upload_file") command.idempotency

  -- The two matches behind the preparation, with the guard between them.
  unfoldable pub publish_small :
      SmallUploadPreparation
      → UnpublishedObjectGuard
      → Result StoredObject ObjectStoreError
      → Action (Result ℕ AppError)
  publish_small preparation guard (ok stored) calls =
      publish service (record_stored_object guard stored) release_upload
        (commit_small_upload command staged preparation stored) service.repository.entry calls
  publish_small preparation guard (err e) calls =
      compensate service guard release_upload (err (map_object_error e)) calls

  unfoldable pub put_small : SmallUploadPreparation → Action (Result ℕ AppError)
  put_small preparation calls =
      let guard = guard_destination preparation.target preparation.key in
      let (result, put) =
        perform
          (object (
            put_file preparation.target preparation.key staged.path command.content_type staged.size
              staged.sha256))
          service.objects.stored calls in
      publish_small preparation guard result put

  unfoldable pub upload_prepared : Prepared SmallUploadPreparation ℕ → Action (Result ℕ AppError)
  upload_prepared (replay entry_id) calls = (ok entry_id, calls)
  upload_prepared (acquired preparation) calls = put_small preparation calls

  unfoldable pub upload_small : Action (Result ℕ AppError)
  upload_small calls =
      if ltb single_upload_max_bytes staged.size
      then (err payload_too_large, calls)
      else try (perform (prepare_small_upload command staged) service.repository.small_upload)
          upload_prepared calls
