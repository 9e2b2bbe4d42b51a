-- ===== src/Quota.antt =====
-- src/domain/quota.rs: upload and storage limits.
pub mod Admission
mod Examples
use silicon_briefcase.Prelude.{
  ℕ, ◌*◌, Bool, true, false, Option, none, some, Result, ok, err, saturating_add, saturating_sub,
  ltb, if◌then◌else◌,
}
use silicon_briefcase.Text.{Str, codes}
use silicon_briefcase.Multipart.Plan.{gib, tib}

abbrev pib : ℕ
pib = 1024 * tib

abbrev default_daily_upload_limit_bytes : ℕ
default_daily_upload_limit_bytes = 100 * gib

abbrev default_storage_limit_bytes : ℕ
default_storage_limit_bytes = pib

pub data UploadLimit : Type 0 where
  daily_upload storage : UploadLimit

-- `UploadLimit::code`.
unfoldable pub limit_code : UploadLimit → Str
limit_code daily_upload = codes "daily_upload_limit_exhausted"
limit_code storage = codes "storage_limit_exhausted"

unfoldable resets : UploadLimit → Bool
resets daily_upload = true
resets storage = false

pub record OrganizationUsage : Type 0 where
  pub daily_upload_bytes : ℕ
  pub stored_bytes : ℕ
  pub daily_upload_limit : Option ℕ
  pub storage_limit : Option ℕ

abbrev unused : OrganizationUsage
unused = record {
  daily_upload_bytes = 0;
  stored_bytes = 0;
  daily_upload_limit = none;
  storage_limit = none;
}

abbrev limit_or : ℕ → Option ℕ → ℕ
limit_or default none = default
limit_or default (some limit) = limit

unfoldable pub daily_upload_allowance : OrganizationUsage → ℕ
daily_upload_allowance usage = limit_or default_daily_upload_limit_bytes usage.daily_upload_limit

unfoldable pub storage_allowance : OrganizationUsage → ℕ
storage_allowance usage = limit_or default_storage_limit_bytes usage.storage_limit

unfoldable pub daily_upload_remaining : OrganizationUsage → ℕ
daily_upload_remaining usage =
    saturating_sub (daily_upload_allowance usage) usage.daily_upload_bytes

unfoldable pub storage_remaining : OrganizationUsage → ℕ
storage_remaining usage = saturating_sub (storage_allowance usage) usage.stored_bytes

unfoldable pub admits_storage : OrganizationUsage → ℕ → Result Unit UploadLimit
admits_storage usage bytes =
    if ltb (storage_allowance usage) (saturating_add usage.stored_bytes bytes)
    then err storage
    else ok tt

unfoldable pub admits_upload : OrganizationUsage → ℕ → Result Unit UploadLimit
admits_upload usage bytes =
    if ltb (daily_upload_allowance usage) (saturating_add usage.daily_upload_bytes bytes)
    then err daily_upload
    else admits_storage usage bytes
