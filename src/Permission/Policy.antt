-- ===== src/Permission/Policy.antt =====
-- src/domain/permission.rs: the authorization of one entry (`evaluate_authorization`). `Time` is
-- that of the grants.
pub mod Sources
pub mod Limits
use silicon_briefcase.Prelude.{
  ℕ, Bool, true, false, not, ◌&&◌, ◌||◌, List, [], ◌∷◌, Option, none, some, if◌then◌else◌,
}
use silicon_briefcase.Text.{str_eq}
use silicon_briefcase.Identity.Reference.{
  ActorRef, OrganizationId, ApplicationId, actor_eq, has_owner_rights,
}
use silicon_briefcase.Identity.Context.{RequestAuthContext, is_creator}
use silicon_briefcase.Entry.Kind.{
  EntryKind, file, folder, can_contain_children, SystemEntryKind, public_container,
  private_container, tag_root, application_container,
}
use silicon_briefcase.Permission.Capability.{
  Capability, CapabilitySet, empty, full, contains, insert, remove, union_with, from_granted_access,
}
use silicon_briefcase.Permission.Grant.{GrantApplication, grant_of, applies_to}

pub data EntryVisibility : Type 0 where
  hidden traversal fully_visible : EntryVisibility

pub record EffectiveAuthorizationInput (Time : Type 0) : Type 0 where
  pub context : RequestAuthContext
  pub entry_organization_id : OrganizationId
  pub entry_id : ℕ
  pub entry_kind : EntryKind
  pub system_kind : Option SystemEntryKind
  pub owner : ActorRef
  pub origin_application_id : Option ApplicationId
  pub grants : List (GrantApplication Time)
  pub owns_ancestor : Bool
  pub required_for_traversal : Bool

pub record EffectiveAuthorization : Type 0 where
  pub visibility : EntryVisibility
  pub capabilities : CapabilitySet

-- `EffectiveAuthorization::hidden`.
abbrev hidden_authorization : EffectiveAuthorization
hidden_authorization = record { visibility = hidden; capabilities = empty }

unfoldable pub allows : EffectiveAuthorization → Capability → Bool
allows authorization capability = contains authorization.capabilities capability

-- The `matches!` on the system kind.
abbrev pub ownership_is_authoritative : Option SystemEntryKind → Bool
ownership_is_authoritative none = true
ownership_is_authoritative (some public_container) = false
ownership_is_authoritative (some private_container) = false
ownership_is_authoritative (some tag_root) = false
ownership_is_authoritative (some application_container) = false
ownership_is_authoritative (some _) = true

abbrev pub is_none : Option SystemEntryKind → Bool
is_none none = true
is_none (some kind) = false

-- Only Briefcase creates the folders directly inside these.
abbrev pub children_are_reserved : Option SystemEntryKind → Bool
children_are_reserved none = false
children_are_reserved (some application_container) = true
children_are_reserved (some private_container) = true
children_are_reserved (some _) = false

abbrev is_folder : EntryKind → Bool
is_folder file = false
is_folder folder = true

-- A file has no children, and a folder no content.
unfoldable pub fit_kind : EntryKind → CapabilitySet → CapabilitySet
unfolding can_contain_children
fit_kind kind capabilities =
    let fitted =
      if can_contain_children kind
      then capabilities
      else remove capabilities Capability.create_child in
    if is_folder kind then remove fitted Capability.write_content else fitted

module _ {Time : Type 0} (input : EffectiveAuthorizationInput Time) where
  -- The test on one grant in the loop.
  unfoldable pub grant_counts : GrantApplication Time → Bool
  grant_counts application =
      let grant = grant_of application in
      str_eq grant.parts.organization_id input.entry_organization_id
      && actor_eq grant.parts.principal input.context.actor
      && applies_to application input.entry_id

  unfoldable pub add_grants : List (GrantApplication Time) → CapabilitySet → CapabilitySet
  add_grants [] capabilities = capabilities
  add_grants (application ∷ grants) capabilities = add_grants grants (
      if grant_counts application
      then union_with capabilities (from_granted_access (grant_of application).parts.access)
      else capabilities)

  -- The capabilities of an entry in the drive of the request, up to the visibility.
  unfoldable pub capabilities_in_drive : CapabilitySet
  capabilities_in_drive =
      let owner_rights = has_owner_rights input.context.access in
      let from_creation =
        if owner_rights
          || (is_creator input.context input.owner && ownership_is_authoritative input.system_kind)
        then full
        else empty in
      let with_ancestor =
        if input.owns_ancestor then insert from_creation Capability.read else from_creation in
      let with_grants =
        if is_none input.system_kind
        then add_grants input.grants with_ancestor
        else with_ancestor in
      let fitted = fit_kind input.entry_kind with_grants in
      let unreserved =
        if children_are_reserved input.system_kind
        then remove fitted Capability.create_child
        else fitted in
      if not (is_none input.system_kind)
      then remove
          (remove (remove (remove unreserved Capability.update_metadata) Capability.write_content)
            Capability.delete)
          Capability.manage_permissions
      else if owner_rights
      then fit_kind input.entry_kind full
      else unreserved

  unfoldable pub visibility_of : CapabilitySet → EntryVisibility
  visibility_of capabilities =
      if contains capabilities Capability.read
      then fully_visible
      else if input.required_for_traversal && is_folder input.entry_kind
      then traversal
      else hidden

  unfoldable pub evaluate_authorization : EffectiveAuthorization
  unfolding capabilities_in_drive visibility_of
  evaluate_authorization =
      if not (str_eq input.context.organization_id input.entry_organization_id)
      then hidden_authorization
      else record {
        visibility = visibility_of capabilities_in_drive;
        capabilities = capabilities_in_drive;
      }
