-- ===== src/Storage/Validation.antt =====
-- src/domain/storage.rs: the state of a storage configuration, validated once.
use silicon_briefcase.Prelude.{Result, ok, err}

pub data StorageConfigurationState : Type 0 where
  pending_validation active failed : StorageConfigurationState

data StorageValidationOutcome : Type 0 where
  validation_succeeded validation_failed : StorageValidationOutcome

data StorageConfigurationTransitionError : Type 0 where
  already_validated : StorageConfigurationState → StorageConfigurationTransitionError

abbrev finished : StorageValidationOutcome → StorageConfigurationState
finished validation_succeeded = active
finished validation_failed = failed

unfoldable finish_validation :
    StorageConfigurationState
    → StorageValidationOutcome
    → Result StorageConfigurationState StorageConfigurationTransitionError
finish_validation pending_validation outcome = ok (finished outcome)
finish_validation state outcome = err (already_validated state)
