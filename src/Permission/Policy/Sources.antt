-- ===== src/Permission/Policy/Sources.antt =====
-- Where rights come from: the capabilities that the evaluation gives, described without its steps.
use silicon_briefcase.Prelude.{
  Bool, true, false, not, ◌&&◌, ◌||◌, ◌≡◌, refl, List, [], ◌∷◌, Option, none, some, if◌then◌else◌,
  arith, Bool-cases, inl, inr,
}
use silicon_briefcase.Text.{str_eq}
use silicon_briefcase.Identity.Reference.{has_owner_rights}
use silicon_briefcase.Identity.Context.{is_creator}
use silicon_briefcase.Entry.Kind.{EntryKind, file, folder, SystemEntryKind}
use silicon_briefcase.Permission.Capability.{Capability, CapabilitySet}
use silicon_briefcase.Permission.Capability.Meaning.{
  Means, Means-insert, Means-remove, Means-union_with, Means-if, Means-same, Means-empty,
  Means-full, same, granted, from_granted_access-Means,
}
use silicon_briefcase.Permission.Grant.{GrantApplication, grant_of}
use silicon_briefcase.Permission.Policy.{
  EffectiveAuthorizationInput, allows, ownership_is_authoritative, is_none, children_are_reserved,
  fit_kind, grant_counts, add_grants, capabilities_in_drive, evaluate_authorization,
}

-- The capabilities that make sense for a kind of entry.
abbrev pub suits_kind : EntryKind → Capability → Bool
suits_kind file Capability.create_child = false
suits_kind folder Capability.write_content = false
suits_kind _ _ = true

-- What a system folder leaves open: reading, and creating children unless these are reserved.
abbrev pub left_open : Option SystemEntryKind → Capability → Bool
left_open none c = true
left_open (some kind) Capability.read = true
left_open (some kind) Capability.create_child = not (children_are_reserved (some kind))
left_open (some kind) _ = false

fit_kind-Means :
    (kind : EntryKind) {s : CapabilitySet} {f : Capability → Bool}
    → Means s f
    → Means (fit_kind kind s) (λ c. f c && suits_kind kind c)
unfolding fit_kind same
fit_kind-Means file {s} {f} m = Means-same (Means-remove m Capability.create_child) shown
  where
    shown :
        (c : Capability)
        → (f c && not (same Capability.create_child c)) ≡ (f c && suits_kind file c)
    shown Capability.read = refl
    shown _ = refl
fit_kind-Means folder {s} {f} m = Means-same (Means-remove m Capability.write_content) shown
  where
    shown :
        (c : Capability)
        → (f c && not (same Capability.write_content c)) ≡ (f c && suits_kind folder c)
    shown Capability.read = refl
    shown _ = refl

module _ {Time : Type 0} (input : EffectiveAuthorizationInput Time) where
  -- A grant in the list that applies to the caller and the entry, and whose rights allow `c`.
  unfoldable pub grants_allow : List (GrantApplication Time) → Capability → Bool
  grants_allow [] c = false
  grants_allow (application ∷ grants) c =
      (grant_counts input application && granted (grant_of application).parts.access c)
      || grants_allow grants c

  -- The drive's owner or its custodian, or the creator of an entry whose owner column counts.
  unfoldable pub holds_everything : Bool
  holds_everything =
      has_owner_rights input.context.access
      || (is_creator input.context input.owner && ownership_is_authoritative input.system_kind)

  -- The four sources of rights.
  unfoldable pub has_source : Capability → Bool
  unfolding holds_everything
  has_source c =
      (holds_everything || (input.owns_ancestor && same Capability.read c))
      || (is_none input.system_kind && grants_allow input.grants c)

  unfoldable pub may : Capability → Bool
  unfolding has_source
  may c = (has_source c && suits_kind input.entry_kind c) && left_open input.system_kind c

  add_grants-Means :
      (grants : List (GrantApplication Time)) {s : CapabilitySet} {f : Capability → Bool}
      → Means s f
      → Means (add_grants input grants s) (λ c. f c || grants_allow grants c)
  unfolding add_grants grants_allow
  add_grants-Means [] {f = f} m = Means-same m (λ c. shown (f c))
    where
      shown : (b : Bool) → b ≡ (b || false)
      shown true = refl
      shown false = refl
  add_grants-Means (g ∷ gs) {f = f} m =
      let access = (grant_of g).parts.access in
      let joined = Means-union_with m (from_granted_access-Means access) in
      Means-same (add_grants-Means gs (Means-if joined (grant_counts input g) m))
        (λ c. shown (grant_counts input g) (f c) (granted access c) (grants_allow gs c))
    where
      shown : (b x y z : Bool) → ((if b then x || y else x) || z) ≡ (x || ((b && y) || z))
      shown b x y z = ground arith

  pub capabilities_in_drive-Means : Means (capabilities_in_drive input) may
  unfolding capabilities_in_drive may same
  capabilities_in_drive-Means =
      let owner_rights = has_owner_rights input.context.access in
      let creates =
        owner_rights
        || (is_creator input.context input.owner && ownership_is_authoritative input.system_kind) in
      let creation = Means-if Means-full creates Means-empty in
      let ancestor =
        Means-if (Means-insert creation Capability.read) input.owns_ancestor creation in
      let with_grants =
        Means-if (add_grants-Means input.grants ancestor) (is_none input.system_kind) ancestor in
      let fitted = fit_kind-Means input.entry_kind with_grants in
      let unreserved =
        Means-if (Means-remove fitted Capability.create_child)
          (children_are_reserved input.system_kind) fitted in
      let content =
        Means-remove (Means-remove unreserved Capability.update_metadata)
          Capability.write_content in
      let structure =
        Means-remove (Means-remove content Capability.delete) Capability.manage_permissions in
      let restated =
        Means-if (fit_kind-Means input.entry_kind Means-full) owner_rights unreserved in
      Means-same (Means-if structure (not (is_none input.system_kind)) restated) (λ c.
        shown input.system_kind owner_rights
          (is_creator input.context input.owner && ownership_is_authoritative input.system_kind)
          input.owns_ancestor (grants_allow input.grants c) input.entry_kind c)
    where
      shown :
          (sys : Option SystemEntryKind) (o k a g : Bool) (kind : EntryKind) (c : Capability)
          → (let from_creation = if o || k then true else false in
              let from_ancestor =
                if a then from_creation || same Capability.read c else from_creation in
              let from_grants = if is_none sys then from_ancestor || g else from_ancestor in
              let fitted = from_grants && suits_kind kind c in
              let unreserved =
                if children_are_reserved sys
                then fitted && not (same Capability.create_child c)
                else fitted in
              let structure =
                (((unreserved && not (same Capability.update_metadata c))
                    && not (same Capability.write_content c))
                  && not (same Capability.delete c))
                && not (same Capability.manage_permissions c) in
              if not (is_none sys)
              then structure
              else if o
              then true && suits_kind kind c
              else unreserved)
            ≡ (((((o || k) || (a && same Capability.read c)) || (is_none sys && g))
                  && suits_kind kind c)
                && left_open sys c)
      shown none o k a g kind c = ground arith
      shown (some s) o k a g kind Capability.read = ground arith
      shown (some s) o k a g kind _ = ground arith

-- An operation on an entry is allowed exactly when the entry is in the drive of the request, some
-- source gives it, it suits the kind of the entry, and a system folder leaves it open. The sources are
-- the drive's rights, having created the entry where its owner column counts, the ownership of a
-- folder above it for reading, and on an entry that is no system folder a grant that applies to the
-- caller and the entry.
pub evaluate_authorization-allows :
    {Time : Type 0} (input : EffectiveAuthorizationInput Time) (c : Capability)
    → allows (evaluate_authorization input) c
      ≡ (str_eq input.context.organization_id input.entry_organization_id && may input c)
unfolding allows evaluate_authorization
evaluate_authorization-allows input c =
    elim (Bool-cases (str_eq input.context.organization_id input.entry_organization_id)) [
      | inl here ↦ rw here ((capabilities_in_drive-Means input).holds c)
      | inr elsewhere ↦ rw elsewhere (Means-empty.holds c)
    ]
