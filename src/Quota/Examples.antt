-- ===== src/Quota/Examples.antt =====
-- An account with limits of its own (src/domain/quota.rs).
use silicon_briefcase.Prelude.{◌+◌, ◌≤◌, ◌≡◌, ◌↔◌, some, ok, arith}
use silicon_briefcase.Quota.{
  OrganizationUsage, daily_upload_allowance, storage_allowance, admits_upload,
}
use silicon_briefcase.Quota.Admission.{HasRoomAbove, admits_upload_iff}

abbrev busy : OrganizationUsage
busy = record {
  daily_upload_bytes = 90;
  stored_bytes = 995;
  daily_upload_limit = some 100;
  storage_limit = some 1000;
}

busy-HasRoomAbove : HasRoomAbove busy
unfolding daily_upload_allowance storage_allowance
busy-HasRoomAbove = record { daily = omega arith; stored = omega arith }

admits_upload_iff_example :
    (admits_upload busy 5 ≡ ok tt)
    ↔ ((90 + 5 ≤ daily_upload_allowance busy) × (995 + 5 ≤ storage_allowance busy))
admits_upload_iff_example = admits_upload_iff busy busy-HasRoomAbove 5
