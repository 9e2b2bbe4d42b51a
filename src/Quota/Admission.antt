-- ===== src/Quota/Admission.antt =====
-- When an upload is admitted, and which limit refuses it.
use silicon_briefcase.Prelude.{ℕ, ◌+◌, ◌-◌, ◌≤◌, ◌<◌, ◌≡◌, ◌↔◌, ◌⊎◌, ok, err, arith, u64_mod}
use silicon_briefcase.Quota.{
  OrganizationUsage, UploadLimit, daily_upload, storage, daily_upload_allowance, storage_allowance,
  daily_upload_remaining, storage_remaining, admits_storage, admits_upload,
}

-- Ceilings that a `u64` counter can pass, so that saturation still refuses.
pub record HasRoomAbove (usage : OrganizationUsage) : Type 0 where
  pub daily : daily_upload_allowance usage < u64_mod - 1
  pub stored : storage_allowance usage < u64_mod - 1

module _ (usage : OrganizationUsage) (room : HasRoomAbove usage) where
  -- With allowances below the largest `u64`, an upload is admitted exactly when the bytes of the day and the stored bytes both stay within their
  -- allowance with it, whatever the size asked for: the counters never wrap.
  pub admits_upload_iff :
      (bytes : ℕ)
      → (admits_upload usage bytes ≡ ok tt) ↔ (
          (usage.daily_upload_bytes + bytes ≤ daily_upload_allowance usage)
          × (usage.stored_bytes + bytes ≤ storage_allowance usage))
  unfolding admits_upload admits_storage
  admits_upload_iff bytes =
      let daily = room.daily in let stored = room.stored in (λ h. ground arith, λ h. ground arith)

  -- With allowances below the largest `u64`, a refusal names the daily limit whenever it is exceeded, and the storage
  -- limit when that is exceeded and the daily one has room.
  pub admits_upload-err :
      (bytes : ℕ) (limit : UploadLimit)
      → admits_upload usage bytes ≡ err limit
      → ((limit ≡ daily_upload) × (daily_upload_allowance usage < usage.daily_upload_bytes + bytes))
        ⊎ ((limit ≡ storage)
            × (usage.daily_upload_bytes + bytes ≤ daily_upload_allowance usage)
            × (storage_allowance usage < usage.stored_bytes + bytes))
  unfolding admits_upload admits_storage
  admits_upload-err bytes limit h =
      let daily = room.daily in let stored = room.stored in ground arith

  -- With allowances below the largest `u64`, what remains is what is admitted: a nonempty upload is admitted exactly when it is at most what remains
  -- of the day and of the storage.
  pub admits_upload-remaining :
      (bytes : ℕ)
      → 1 ≤ bytes
      → (admits_upload usage bytes ≡ ok tt)
        ↔ ((bytes ≤ daily_upload_remaining usage) × (bytes ≤ storage_remaining usage))
  unfolding daily_upload_remaining storage_remaining
  admits_upload-remaining bytes h = (
    λ e. omega (arith, (admits_upload_iff bytes).0 e),
    λ e. (admits_upload_iff bytes).1 (omega arith),
  )
