-- ===== src/Content/Guard.antt =====
-- src/application/content.rs: the guard of an object that is not published yet, and the errors of
-- object storage.
pub mod Safety
use silicon_briefcase.Prelude.{
  Bool, true, false, not, Option, none, some, List, [], ◌∷◌, Result, ok, err, map_err,
  if◌then◌else◌,
}
use silicon_briefcase.Text.{Str, codes}
use silicon_briefcase.Error.{
  AppError, validation, dependency_unavailable, payload_too_large, database_commit_outcome_unknown,
}
use silicon_briefcase.Storage.{
  StorageTarget, ObjectKey, StoredObject, ObjectMetadata, ObjectStoreError, invalid_configuration,
  unavailable,
}
use silicon_briefcase.Multipart.Plan.{MultipartPlanError, file_too_large}
use silicon_briefcase.Content.{Idempotency}
use silicon_briefcase.Content.Calls.{
  Calls, Action, Call, ObjectCall, object, head, delete, abort_multipart, release_operation,
  ContentService, perform,
}

unfoldable pub map_plan_error : MultipartPlanError → AppError
map_plan_error (file_too_large size limit) = payload_too_large
map_plan_error _ = validation (codes "invalid_multipart_size")

unfoldable pub map_object_error : ObjectStoreError → AppError
map_object_error ObjectStoreError.not_found = AppError.not_found
map_object_error ObjectStoreError.conflict = AppError.conflict (codes "storage_conflict")
map_object_error invalid_configuration = validation (codes "invalid_storage_configuration")
map_object_error unavailable = dependency_unavailable (codes "object_storage")
map_object_error ObjectStoreError.internal = AppError.internal (codes "object_storage")

unfoldable pub object_error_code : ObjectStoreError → Str
object_error_code ObjectStoreError.not_found = codes "storage_not_found"
object_error_code ObjectStoreError.conflict = codes "storage_conflict"
object_error_code invalid_configuration = codes "storage_validation_failed"
object_error_code unavailable = codes "storage_unavailable"
object_error_code ObjectStoreError.internal = codes "storage_internal"

pub data PublicationFailureDisposition : Type 0 where
  preserve_provider_state compensate_provider_state : PublicationFailureDisposition

unfoldable pub publication_failure_disposition : AppError → PublicationFailureDisposition
publication_failure_disposition (database_commit_outcome_unknown operation) =
    preserve_provider_state
publication_failure_disposition _ = compensate_provider_state

pub record UnpublishedObjectGuard : Type 0 where
  pub target : StorageTarget
  pub key : ObjectKey
  pub provider_upload_id : Option Str
  pub provider_version_id : Option Str
  pub armed : Bool

-- `UnpublishedObjectGuard::destination`.
unfoldable pub guard_destination : StorageTarget → ObjectKey → UnpublishedObjectGuard
guard_destination target key = record {
  target = target;
  key = key;
  provider_upload_id = none;
  provider_version_id = none;
  armed = true;
}

-- `UnpublishedObjectGuard::multipart`.
unfoldable pub guard_multipart : StorageTarget → ObjectKey → Str → UnpublishedObjectGuard
guard_multipart target key provider_upload_id = record {
  target = target;
  key = key;
  provider_upload_id = some provider_upload_id;
  provider_version_id = none;
  armed = true;
}

unfoldable pub record_stored_object : UnpublishedObjectGuard → StoredObject → UnpublishedObjectGuard
record_stored_object guard stored = record guard {
  provider_version_id = stored.provider_version_id;
}

unfoldable pub disarm : UnpublishedObjectGuard → UnpublishedObjectGuard
disarm guard = record guard { armed = false }

-- The deletion of what is there, by the version that a look at it found.
unfoldable pub delete_discovered :
    StorageTarget → ObjectKey → Result ObjectMetadata ObjectStoreError → Calls → Calls
delete_discovered target key (ok metadata) calls =
    object (delete target key metadata.provider_version_id) ∷ calls
delete_discovered target key (err e) calls = calls

-- A call of object storage, its failure mapped.
unfoldable pub provider :
    {A : Type 0} → Call → (Calls → Result A ObjectStoreError) → Action (Result A AppError)
provider call answer calls = (map_err map_object_error (answer (call ∷ calls)), call ∷ calls)

module _ (service : ContentService) where
  -- The calls of the cleanup: its failures are only logged.
  unfoldable pub abort_unpublished : StorageTarget → ObjectKey → Option Str → Calls → Calls
  abort_unpublished target key none calls = calls
  abort_unpublished target key (some id) calls = object (abort_multipart target key id) ∷ calls

  unfoldable pub delete_unpublished : StorageTarget → ObjectKey → Option Str → Calls → Calls
  delete_unpublished target key (some version) calls =
      object (delete target key (some version)) ∷ calls
  delete_unpublished target key none calls =
      let looked = object (head target key none) ∷ calls in
      delete_discovered target key (service.objects.metadata looked) looked

  unfoldable pub cleanup_unpublished_object :
      StorageTarget → ObjectKey → Option Str → Option Str → Calls → Calls
  cleanup_unpublished_object target key provider_upload_id provider_version_id calls =
      delete_unpublished target key provider_version_id
        (abort_unpublished target key provider_upload_id calls)

  unfoldable pub cleanup_now : UnpublishedObjectGuard → Action UnpublishedObjectGuard
  unfolding disarm
  cleanup_now guard calls = (
    disarm guard,
    cleanup_unpublished_object guard.target guard.key guard.provider_upload_id
        guard.provider_version_id calls,
  )

  -- `Drop`: the cleanup that it spawns.
  unfoldable pub drop_guard : UnpublishedObjectGuard → Calls → Calls
  drop_guard guard calls =
      let cleaned = (cleanup_now guard calls).1 in if guard.armed then cleaned else calls

  -- `release`: a failure is only logged.
  unfoldable pub release : Str → Idempotency → Calls → Calls
  release operation idempotency calls = release_operation operation idempotency ∷ calls

  -- The end of a function that owns a guard.
  unfoldable pub leave : {A : Type 0} → UnpublishedObjectGuard → A → Action A
  leave guard result calls = (result, drop_guard guard calls)

  -- A failure after the preparation: the cleanup, and what comes after it.
  unfoldable pub compensate : {A : Type 0} → UnpublishedObjectGuard → (Calls → Calls) → A → Action A
  compensate guard after result calls =
      let (guard', cleaned) = cleanup_now guard calls in leave guard' result (after cleaned)

  -- The match on the result of a publication.
  unfoldable pub settle :
      {A : Type 0}
      → UnpublishedObjectGuard
      → (Calls → Calls)
      → Result A AppError
      → Action (Result A AppError)
  settle guard after (ok a) calls = leave (disarm guard) (ok a) calls
  settle guard after (err e) calls = elim (publication_failure_disposition e) [
    | preserve_provider_state ↦ leave (disarm guard) (err e) calls
    | compensate_provider_state ↦ compensate guard after (err e) calls
  ]

  -- A publication and the match on its result.
  unfoldable pub publish :
      {A : Type 0}
      → UnpublishedObjectGuard
      → (Calls → Calls)
      → Call
      → (Calls → Result A AppError)
      → Action (Result A AppError)
  publish guard after commit answer calls =
      let (result, committed) = perform commit answer calls in settle guard after result committed
