-- ===== src/Content/Configure/Promises.antt =====
-- What the configuration of an organization's own storage promises.
use silicon_briefcase.Prelude.{
  ℕ, ◌≡◌, ◌∙◌, ◌⊎◌, inl, inr, refl, sym, ap, subst, ◌∷◌, Result, ok, err,
}
use silicon_briefcase.Storage.{ObjectStoreError}
use silicon_briefcase.Content.{
  ConfigureStorageCommand, StorageConfigurationResult, StorageConfigurationPreparation, Prepared,
  acquired, replay,
}
use silicon_briefcase.Content.Calls.{
  Calls, object, validate_configuration, now_utc, prepare_storage_configuration,
  activate_storage_configuration, fail_storage_configuration, ContentService, perform,
}
use silicon_briefcase.Content.Calls.Steps.{try-ok}
use silicon_briefcase.Content.Guard.{object_error_code}
use silicon_briefcase.Content.Configure.{conclude, configure_prepared, configure_storage}

module _ (service : ContentService) (command : ConfigureStorageCommand) (calls : Calls) where
  abbrev pub asked : Calls
  asked = prepare_storage_configuration command ∷ calls

  -- The storage was probed, after the clock was read.
  abbrev pub probed : StorageConfigurationPreparation → Calls
  probed p = object (validate_configuration p.target p.expected_account_id) ∷ now_utc ∷ asked

  abbrev tested_at : ℕ
  tested_at = service.clock (now_utc ∷ asked)

  -- The last call follows the probe: activation after success, and otherwise the record of the failure.
  abbrev pub Concluded : StorageConfigurationPreparation → Calls → Type 0
  Concluded p calls' =
      ((service.objects.done (probed p) ≡ ok tt)
        × (calls' ≡ activate_storage_configuration command p tested_at ∷ probed p))
      ⊎ ((e : ObjectStoreError) × (service.objects.done (probed p) ≡ err e)
          × (calls'
              ≡ fail_storage_configuration command p tested_at (object_error_code e) ∷ probed p))

  conclude-Concluded :
      (p : StorageConfigurationPreparation) (probe : Result Unit ObjectStoreError)
      → service.objects.done (probed p) ≡ probe
      → Concluded p (conclude service command p tested_at probe (probed p)).1
  unfolding conclude
  conclude-Concluded p (ok tt) answered = inl (answered, refl)
  conclude-Concluded p (err e) answered = inr (e, answered, refl)

  prepared-Concluded :
      (prepared : Prepared StorageConfigurationPreparation StorageConfigurationResult)
      (result : StorageConfigurationResult)
      → service.repository.configuration asked ≡ ok prepared
      → (configure_prepared service command prepared asked).0 ≡ ok result
      → (service.repository.configuration asked ≡ ok (replay result))
        ⊎ ((p : StorageConfigurationPreparation) × (service.repository.configuration asked
              ≡ ok (acquired p))
            × Concluded p (configure_prepared service command prepared asked).1)
  unfolding configure_prepared
  prepared-Concluded (replay old) result lease e = inl cc
  prepared-Concluded (acquired p) result lease e = inr (p, lease, conclude-Concluded p _ refl)

  -- A configuration that is answered is the replay of an earlier one, or its storage was probed once, and
  -- the last call is the activation if the probe succeeded, and the record of the failure, with its
  -- code, if the probe failed.
  pub configure_storage-ok :
      (result : StorageConfigurationResult)
      → (configure_storage service command calls).0 ≡ ok result
      → (service.repository.configuration asked ≡ ok (replay result))
        ⊎ ((p : StorageConfigurationPreparation) × (service.repository.configuration asked
              ≡ ok (acquired p))
            × Concluded p (configure_storage service command calls).1)
  unfolding configure_storage
  configure_storage-ok result e =
      let (prepared, lease, run) =
        try-ok (perform (prepare_storage_configuration command) service.repository.configuration)
          (configure_prepared service command) calls e in
      subst
        (λ r.
          (service.repository.configuration asked ≡ ok (replay result))
          ⊎ ((p : StorageConfigurationPreparation) × (service.repository.configuration asked
                ≡ ok (acquired p))
              × Concluded p r.1))
        (sym run) (prepared-Concluded prepared result lease (sym (ap (λ r. r.0) run) ∙ e))
