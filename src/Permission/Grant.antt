-- ===== src/Permission/Grant.antt =====
-- src/domain/permission.rs: explicit grants. `Time` stands for the crate `time`'s instants, which
-- grants only carry; a UUID is the number of its 128 bits.
use silicon_briefcase.Prelude.{ℕ, Bool, true, false, not, ◌&&◌, Option, none, ◌==◌, if◌then◌else◌}
use silicon_briefcase.Identity.Reference.{ActorRef, OrganizationId}
use silicon_briefcase.Permission.Rights.{GrantedAccess}

pub data PermissionInheritance : Type 0 where
  entry_only descendants : PermissionInheritance

unfoldable from_inherit_flag : Bool → PermissionInheritance
from_inherit_flag inherit = if inherit then descendants else entry_only

unfoldable inherit_flag : PermissionInheritance → Bool
inherit_flag entry_only = false
inherit_flag descendants = true

pub record PermissionGrantParts (Time : Type 0) : Type 0 where
  pub id : ℕ
  pub organization_id : OrganizationId
  pub entry_id : ℕ
  pub principal : ActorRef
  pub access : GrantedAccess
  pub inheritance : PermissionInheritance
  pub granted_by : ActorRef
  pub created_at : Time

pub record PermissionGrant (Time : Type 0) : Type 0 where
  pub parts : PermissionGrantParts Time
  pub expires_at : Option Time

module _ {Time : Type 0} where
  unfoldable from_parts : PermissionGrantParts Time → PermissionGrant Time
  from_parts parts = record { parts = parts; expires_at = none }

  unfoldable with_expiry : PermissionGrant Time → Option Time → PermissionGrant Time
  with_expiry grant expires_at = record grant { expires_at = expires_at }

pub data GrantApplication (Time : Type 0) : Type 0 where
  direct inherited : PermissionGrant Time → GrantApplication Time

module _ {Time : Type 0} where
  -- `GrantApplication::grant`.
  unfoldable pub grant_of : GrantApplication Time → PermissionGrant Time
  grant_of (direct grant) = grant
  grant_of (inherited grant) = grant

  unfoldable pub applies_to : GrantApplication Time → ℕ → Bool
  unfolding inherit_flag
  applies_to (direct grant) target_entry_id = grant.parts.entry_id == target_entry_id
  applies_to (inherited grant) target_entry_id =
      not (grant.parts.entry_id == target_entry_id) && inherit_flag grant.parts.inheritance
