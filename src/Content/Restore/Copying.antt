-- ===== src/Content/Restore/Copying.antt =====
-- src/application/content.rs: the copies of a restore, inside one target and between two.
pub mod Large
pub mod Parts
pub mod Verified
use silicon_briefcase.Prelude.{
  ℕ, ◌∷◌, [], ◌++◌, Bool, true, false, not, ◌&&◌, Option, none, some, List, Result, ok, err,
  map_err, ltb, ◌==◌, if◌then◌else◌,
}
use silicon_briefcase.Text.{Str, codes}
use silicon_briefcase.Error.{AppError}
use silicon_briefcase.Storage.{
  StorageTarget, ObjectKey, ObjectChecksum, full_object, object_checksum, StoredObject,
  ObjectMetadata, ObjectStoreError,
}
use silicon_briefcase.Content.{RestorePreparation}
use silicon_briefcase.Content.Calls.{
  Calls, Action, Call, object, head, copy, delete, put_file, get_to_file, create_temporary,
  read_to_end, ContentService, perform, try, pure,
}
use silicon_briefcase.Content.Guard.{map_object_error, provider, cleanup_unpublished_object}
use silicon_briefcase.Content.Restore.{
  checksum_eq, has_checksum, conflict_code, validate_restore_source, validate_restored_object,
  full_object_checksum,
}

abbrev pub temporary_failure : {A : Type 0} → A → AppError
temporary_failure _ = AppError.internal (codes "temporary_storage")

-- The object that a look at the reserved key found.
abbrev pub found_object : RestorePreparation → ObjectMetadata → StoredObject
found_object preparation metadata = record {
  key = preparation.destination_key;
  etag = metadata.etag;
  provider_version_id = metadata.provider_version_id;
  size = metadata.size;
  checksum = metadata.checksum;
}

module _ (service : ContentService) (preparation : RestorePreparation) where
  -- What is done with an object that is already at the reserved key.
  unfoldable pub keep_or_delete :
      ObjectMetadata → Bool → Action (Result (Option StoredObject) AppError)
  keep_or_delete metadata true = pure (ok (some (found_object preparation metadata)))
  keep_or_delete metadata false =
      try
        (provider
          (object (
            delete preparation.destination_target preparation.destination_key
              metadata.provider_version_id))
          service.objects.done)
        (λ _. pure (ok none))

  unfoldable pub is_restored : ObjectMetadata → Bool
  is_restored metadata =
      (metadata.size == preparation.size) && has_checksum metadata.checksum preparation.checksum

  unfoldable pub reconcile_found :
      Result ObjectMetadata ObjectStoreError → Action (Result (Option StoredObject) AppError)
  reconcile_found (ok metadata) = keep_or_delete metadata (is_restored metadata)
  reconcile_found (err ObjectStoreError.not_found) = pure (ok none)
  reconcile_found (err e) = pure (err (map_object_error e))

  unfoldable pub reconcile_reserved_restore_destination :
      Action (Result (Option StoredObject) AppError)
  reconcile_reserved_restore_destination calls =
      let (result, looked) =
        perform (object (head preparation.destination_target preparation.destination_key none))
          service.objects.metadata calls in
      reconcile_found result looked

  unfoldable pub compensating_delete : Option Str → Calls → Calls
  compensating_delete version =
      cleanup_unpublished_object service preparation.destination_target preparation.destination_key
        none version

  -- The stored copy is checked, and taken away again if it is not the one that was meant.
  unfoldable pub check_restored :
      StoredObject → Result Unit AppError → Action (Result StoredObject AppError)
  check_restored stored (ok _) calls = (ok stored, calls)
  check_restored stored (err e) calls =
      (err e, compensating_delete stored.provider_version_id calls)

  unfoldable pub check_put :
      ObjectChecksum → Result StoredObject ObjectStoreError → Action (Result StoredObject AppError)
  check_put expected (ok stored) calls =
      check_restored stored (validate_restored_object stored preparation expected) calls
  check_put expected (err e) calls = (err (map_object_error e), compensating_delete none calls)

  unfoldable pub put_if :
      Str → List ℕ → ObjectChecksum → Bool → Action (Result StoredObject AppError)
  put_if path digest expected false calls =
      (conflict_code (codes "version_checksum_mismatch"), calls)
  put_if path digest expected true calls =
      let (result, put) =
        perform
          (object (
            put_file preparation.destination_target preparation.destination_key path
              preparation.content_type preparation.size digest))
          service.objects.stored calls in
      check_put expected result put

  -- `preparation.checksum != expected`, then the put of the file.
  unfoldable pub put_copy : Str → List ℕ → ObjectChecksum → Action (Result StoredObject AppError)
  put_copy path digest expected calls =
      put_if path digest expected (checksum_eq preparation.checksum expected) calls

  abbrev pub full_checksum : List ℕ → Result ObjectChecksum AppError
  full_checksum digest =
      full_object_checksum service.sha256 service.encode_base64 service.decode_base64 digest

  unfoldable pub digest_copy : Str → List ℕ → Action (Result StoredObject AppError)
  digest_copy path contents =
      let digest = service.sha256 contents in
      try (pure (full_checksum digest)) (put_copy path digest)

  abbrev pub read_back : Str → Action (Result (List ℕ) AppError)
  read_back path calls = (
    map_err temporary_failure (service.files.bytes (read_to_end path ∷ calls)),
    read_to_end path ∷ calls,
  )

  abbrev pub download : Str → Action (Result ObjectMetadata AppError)
  download path =
      provider
        (object (
          get_to_file preparation.source_target preparation.source_key
            preparation.source_provider_version_id path))
        service.objects.metadata

  -- The check of the downloaded source, and the digest of what is read back.
  unfoldable pub verify_copy : Str → ObjectMetadata → Action (Result StoredObject AppError)
  verify_copy path metadata =
      try (pure (validate_restore_source metadata preparation))
        (λ _. try (read_back path) (digest_copy path))

  unfoldable pub copy_through : Str → Action (Result StoredObject AppError)
  copy_through path = try (download path) (verify_copy path)

  abbrev pub temporary_file : Str → Action (Result Str AppError)
  temporary_file prefix calls = (
    map_err temporary_failure (service.files.temporary (create_temporary prefix ∷ calls)),
    create_temporary prefix ∷ calls,
  )

  unfoldable pub copy_small_between_targets : Action (Result StoredObject AppError)
  copy_small_between_targets = try (temporary_file (codes "briefcase-restore-")) copy_through
