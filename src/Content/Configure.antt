-- ===== src/Content/Configure.antt =====
-- src/application/content.rs: the validation and activation of an organization's own storage.
pub mod Promises
use silicon_briefcase.Prelude.{ℕ, ◌∷◌, Result, ok, err}
use silicon_briefcase.Error.{AppError}
use silicon_briefcase.Storage.{ObjectStoreError}
use silicon_briefcase.Content.{
  ConfigureStorageCommand, StorageConfigurationResult, StorageConfigurationPreparation, Prepared,
  acquired, replay,
}
use silicon_briefcase.Content.Calls.{
  Calls, Action, Call, object, validate_configuration, now_utc, prepare_storage_configuration,
  activate_storage_configuration, fail_storage_configuration, ContentService, perform, try, pure,
}
use silicon_briefcase.Content.Guard.{object_error_code}

module _ (service : ContentService) (command : ConfigureStorageCommand) where
  -- The match on the probe.
  unfoldable pub conclude :
      StorageConfigurationPreparation
      → ℕ
      → Result Unit ObjectStoreError
      → Action (Result StorageConfigurationResult AppError)
  conclude preparation tested_at (ok _) =
      perform (activate_storage_configuration command preparation tested_at)
        service.repository.configured
  conclude preparation tested_at (err e) =
      perform (fail_storage_configuration command preparation tested_at (object_error_code e))
        service.repository.configured

  unfoldable pub configure_prepared :
      Prepared StorageConfigurationPreparation StorageConfigurationResult
      → Action (Result StorageConfigurationResult AppError)
  configure_prepared (replay result) calls = (ok result, calls)
  configure_prepared (acquired preparation) calls =
      let (tested_at, timed) = perform now_utc service.clock calls in
      let (probe, probed) =
        perform (object (validate_configuration preparation.target preparation.expected_account_id))
          service.objects.done timed in
      conclude preparation tested_at probe probed

  unfoldable pub configure_storage : Action (Result StorageConfigurationResult AppError)
  configure_storage =
      try (perform (prepare_storage_configuration command) service.repository.configuration)
        configure_prepared
