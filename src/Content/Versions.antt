-- ===== src/Content/Versions.antt =====
-- src/application/content.rs: the restore of a version, around its copy.
pub mod Renewal
pub mod Interleaving
pub mod Outcomes
pub mod Promises
use silicon_briefcase.Prelude.{
  ℕ, zero, suc, ◌∷◌, Bool, true, false, Option, none, some, Result, ok, err, map_err, ltb,
  if◌then◌else◌,
}
use silicon_briefcase.Text.{Str, codes}
use silicon_briefcase.Error.{AppError}
use silicon_briefcase.Storage.{StoredObject}
use silicon_briefcase.Multipart.Plan.{single_upload_max_bytes, plan_for_file_size}
use silicon_briefcase.Content.{
  RestoreVersionCommand, RestorePreparation, Prepared, acquired, replay,
}
use silicon_briefcase.Content.Calls.{
  Calls, Action, Call, object, copy, create_dir_all, prepare_version_restore,
  renew_version_restore_lease, commit_version_restore, ContentService, perform, try, pure,
}
use silicon_briefcase.Content.Guard.{
  map_plan_error, provider, UnpublishedObjectGuard, guard_destination, record_stored_object,
  release, compensate, publish,
}
use silicon_briefcase.Content.Restore.{target_eq}
use silicon_briefcase.Content.Restore.Copying.{
  temporary_failure, reconcile_reserved_restore_destination, copy_small_between_targets,
}
use silicon_briefcase.Content.Restore.Copying.Large.{copy_large_between_targets}
use silicon_briefcase.Content.Versions.Renewal.{await_copy, drop_copy}

module _ (service : ContentService) where
  module _ (preparation : RestorePreparation) where
    unfoldable pub copy_between_targets : Action (Result StoredObject AppError)
    copy_between_targets =
        try
          (λ calls. (
            map_err temporary_failure (service.files.prepared (create_dir_all ∷ calls)),
            create_dir_all ∷ calls,
          ))
          λ _.
            if ltb single_upload_max_bytes preparation.size
            then try (pure (map_err map_plan_error (plan_for_file_size preparation.size)))
                (copy_large_between_targets service preparation)
            else copy_small_between_targets service preparation

    unfoldable pub copy_from_source : Action (Result StoredObject AppError)
    copy_from_source =
        if target_eq preparation.source_target preparation.destination_target
        then provider
            (object (
              copy (record {
                target = preparation.source_target;
                source = preparation.source_key;
                source_provider_version_id = preparation.source_provider_version_id;
                destination = preparation.destination_key;
                content_type = preparation.content_type;
                expected_size = preparation.size;
                expected_checksum = preparation.checksum;
              })))
            service.objects.stored
        else copy_between_targets

    unfoldable pub copy_unless_found : Option StoredObject → Action (Result StoredObject AppError)
    copy_unless_found (some stored) calls = (ok stored, calls)
    copy_unless_found none calls = copy_from_source calls

    unfoldable pub copy_version_for_restore : Action (Result StoredObject AppError)
    copy_version_for_restore =
        try (reconcile_reserved_restore_destination service preparation) copy_unless_found

  module _ (command : RestoreVersionCommand) where
    unfoldable pub release_restore : Calls → Calls
    release_restore = release service (codes "restore_version") command.idempotency

    unfoldable pub publish_restored :
        RestorePreparation
        → UnpublishedObjectGuard
        → Result StoredObject AppError
        → Action (Result ℕ AppError)
    publish_restored preparation guard (err e) = compensate service guard release_restore (err e)
    publish_restored preparation guard (ok stored) =
        publish service (record_stored_object guard stored) release_restore
          (commit_version_restore command preparation stored) service.repository.entry

module _ (service : ContentService) (command : RestoreVersionCommand) (ticks : Calls → ℕ) where
  -- The wait for the copy starts with the calls so far. The copy is dropped at the end, and a cleanup that
  -- this spawns comes last.
  unfoldable pub restore_prepared : Prepared RestorePreparation ℕ → Action (Result ℕ AppError)
  restore_prepared (replay entry_id) calls = (ok entry_id, calls)
  restore_prepared (acquired preparation) calls =
      let guard = guard_destination preparation.destination_target preparation.destination_key in
      let (result, wait) =
        await_copy service command ticks calls
          (λ copying. copy_version_for_restore copying preparation) in
      let (outcome, published) =
        publish_restored service command preparation guard result wait.history in
      (outcome, drop_copy service command ticks calls wait.renewed wait.issued published)

  unfoldable pub restore_version : Action (Result ℕ AppError)
  restore_version =
      try (perform (prepare_version_restore command) service.repository.restore) restore_prepared
