-- ===== src/Permission/Examples.antt =====
-- A folder in the drive of `abc`, shared with the visitor `vis` (src/domain/permission.rs).
use silicon_briefcase.Prelude.{
  ℕ, true, false, ◌&&◌, ◌≡◌, ◌⊎◌, inl, refl, List, [], ◌∷◌, Option, none, some, ok,
}
use silicon_briefcase.Text.{codes, str_eq}
use silicon_briefcase.Identity.Reference.{
  ActorRef, carbon, DriveAccess, owner, visitor, bearer, has_owner_rights, actor_eq, kind_eq,
}
use silicon_briefcase.Identity.Context.{RequestAuthContext, is_creator, set_contains}
use silicon_briefcase.Entry.Kind.{folder, SystemEntryKind, application_folder}
use silicon_briefcase.Permission.Rights.{AccessRight, granted_access, from_bits, rights, conveys}
use silicon_briefcase.Permission.Rights.Bits.{granted_access_roundtrip}
use silicon_briefcase.Permission.Capability.{
  Capability, from_granted_access, contains, remove, union_with, insert,
}
use silicon_briefcase.Permission.Grant.{GrantApplication, direct, descendants, grant_of, applies_to}
use silicon_briefcase.Permission.Policy.{
  EffectiveAuthorizationInput, allows, fully_visible, evaluate_authorization, fit_kind, add_grants,
  grant_counts,
}
use silicon_briefcase.Permission.Policy.Sources.{
  may, holds_everything, evaluate_authorization-allows,
}
use silicon_briefcase.Permission.Policy.Limits.{
  allows-visibility, reserved_operations, system_entries_are_protected, grants_only_add,
}

abbrev abc : ActorRef
abc = record { kind = carbon; id = codes "abc" }

abbrev vis : ActorRef
vis = record { kind = carbon; id = codes "vis" }

abbrev context : ActorRef → DriveAccess → RequestAuthContext
context actor access = record {
  account = none;
  organization_id = codes "abc";
  drive_owner = abc;
  actor = actor;
  access = access;
  creators = actor.id ∷ [];
  authentication = bearer;
}

-- A share of the entry 7, with the rights given; instants are numbers.
abbrev share : List AccessRight → GrantApplication ℕ
share rights = direct (record {
  parts = record {
    id = 1;
    organization_id = codes "abc";
    entry_id = 7;
    principal = vis;
    access = granted_access rights;
    inheritance = descendants;
    granted_by = abc;
    created_at = 0;
  };
  expires_at = none;
})

abbrev asked :
    ActorRef
    → DriveAccess
    → Option SystemEntryKind
    → List (GrantApplication ℕ)
    → EffectiveAuthorizationInput ℕ
asked actor access system_kind grants = record {
  context = context actor access;
  entry_organization_id = codes "abc";
  entry_id = 7;
  entry_kind = folder;
  system_kind = system_kind;
  owner = abc;
  origin_application_id = none;
  grants = grants;
  owns_ancestor = false;
  required_for_traversal = false;
}

abbrev by_visitor : EffectiveAuthorizationInput ℕ
by_visitor = asked vis visitor none (share (AccessRight.write ∷ []) ∷ [])

abbrev by_owner : EffectiveAuthorizationInput ℕ
by_owner = asked abc owner none []

abbrev by_owner_of_app_folder : EffectiveAuthorizationInput ℕ
by_owner_of_app_folder = asked abc owner (some application_folder) []

visitor_writes : allows (evaluate_authorization by_visitor) Capability.create_child ≡ true
unfolding allows evaluate_authorization contains str_eq has_owner_rights fit_kind remove add_grants
    grant_counts grant_of actor_eq kind_eq applies_to union_with is_creator set_contains
    from_granted_access conveys granted_access insert
visitor_writes = refl

owner_deletes : allows (evaluate_authorization by_owner) Capability.delete ≡ true
unfolding allows evaluate_authorization contains str_eq has_owner_rights fit_kind remove
owner_deletes = refl

owner_fills : allows (evaluate_authorization by_owner_of_app_folder) Capability.create_child ≡ true
unfolding allows evaluate_authorization contains str_eq remove fit_kind has_owner_rights
owner_fills = refl

evaluate_authorization-allows_example :
    allows (evaluate_authorization by_visitor) Capability.create_child
    ≡ (str_eq (codes "abc") (codes "abc") && may by_visitor Capability.create_child)
evaluate_authorization-allows_example =
    evaluate_authorization-allows by_visitor Capability.create_child

allows-visibility_example : (evaluate_authorization by_visitor).visibility ≡ fully_visible
allows-visibility_example = allows-visibility by_visitor Capability.create_child visitor_writes

reserved_operations_example : holds_everything by_owner ≡ true
reserved_operations_example =
    reserved_operations by_owner Capability.delete (inl refl) owner_deletes

system_entries_are_protected_example :
    (Capability.create_child ≡ Capability.read)
    ⊎ (Capability.create_child ≡ Capability.create_child)
system_entries_are_protected_example =
    system_entries_are_protected by_owner_of_app_folder application_folder refl
      Capability.create_child owner_fills

grants_only_add_example :
    allows
      (evaluate_authorization
        (record by_visitor { grants = share (AccessRight.update ∷ []) ∷ by_visitor.grants }))
      Capability.create_child
    ≡ true
grants_only_add_example =
    grants_only_add by_visitor (share (AccessRight.update ∷ [])) Capability.create_child
      visitor_writes

granted_access_roundtrip_example :
    (from_bits (granted_access (AccessRight.delete ∷ []))
      ≡ ok (granted_access (AccessRight.delete ∷ [])))
    × (granted_access (rights (granted_access (AccessRight.delete ∷ [])))
        ≡ granted_access (AccessRight.delete ∷ []))
granted_access_roundtrip_example = granted_access_roundtrip (AccessRight.delete ∷ [])
