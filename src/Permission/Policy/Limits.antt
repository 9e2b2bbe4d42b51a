-- ===== src/Permission/Policy/Limits.antt =====
-- What the evaluation never gives, and what it always gives.
use silicon_briefcase.Prelude.{
  Bool, true, false, ◌&&◌, ◌≡◌, ◌⊎◌, inl, inr, refl, sym, ap, ◌∙◌, List, [], ◌∷◌, Option, none,
  some, arith,
}
use silicon_briefcase.Text.{str_eq}
use silicon_briefcase.Identity.Reference.{has_owner_rights}
use silicon_briefcase.Entry.Kind.{EntryKind, file, folder, SystemEntryKind}
use silicon_briefcase.Permission.Capability.{Capability, contains}
use silicon_briefcase.Permission.Capability.Meaning.{granted, same}
use silicon_briefcase.Permission.Grant.{GrantApplication}
use silicon_briefcase.Permission.Policy.{
  EffectiveAuthorizationInput, allows, grant_counts, visibility_of, evaluate_authorization,
  fully_visible, capabilities_in_drive,
}
use silicon_briefcase.Permission.Policy.Sources.{
  suits_kind, left_open, grants_allow, holds_everything, has_source, may,
  evaluate_authorization-allows, capabilities_in_drive-Means,
}

abbrev in_drive : {Time : Type 0} → EffectiveAuthorizationInput Time → Bool
in_drive input = str_eq input.context.organization_id input.entry_organization_id

suits_kind-read : (kind : EntryKind) → suits_kind kind Capability.read ≡ true
suits_kind-read file = refl
suits_kind-read folder = refl

left_open-read : (kind : Option SystemEntryKind) → left_open kind Capability.read ≡ true
left_open-read none = refl
left_open-read (some kind) = refl

left_open-cases :
    (kind : SystemEntryKind) (c : Capability)
    → left_open (some kind) c ≡ true
    → (c ≡ Capability.read) ⊎ (c ≡ Capability.create_child)
left_open-cases kind Capability.read h = inl refl
left_open-cases kind Capability.create_child h = inr refl
left_open-cases kind _ h = absurd (cc)

module _ {Time : Type 0} (input : EffectiveAuthorizationInput Time) where
  -- A grant that allows anything allows reading.
  grants_allow-read :
      (grants : List (GrantApplication Time)) (c : Capability)
      → grants_allow input grants c ≡ true
      → grants_allow input grants Capability.read ≡ true
  unfolding grants_allow granted
  grants_allow-read [] c h = cc
  grants_allow-read (g ∷ gs) c h = ground (arith, grants_allow-read gs c)

  may-read : (c : Capability) → may input c ≡ true → may input Capability.read ≡ true
  unfolding may same
  may-read c h = ground (
    arith,
    grants_allow-read input.grants c,
    suits_kind-read input.entry_kind,
    left_open-read input.system_kind,
  )

  allowed :
      (c : Capability)
      → allows (evaluate_authorization input) c ≡ true
      → (in_drive input ≡ true) × (may input c ≡ true)
  allowed c h =
      let e : (in_drive input && may input c) ≡ true =
        sym (evaluate_authorization-allows input c) ∙ h in
      ground arith

  read-visible :
      contains (capabilities_in_drive input) Capability.read ≡ true
      → in_drive input ≡ true
      → (evaluate_authorization input).visibility ≡ fully_visible
  unfolding evaluate_authorization visibility_of
  read-visible r here = rw (here, r)

  grants_allow-reserved :
      (grants : List (GrantApplication Time))
      → (grants_allow input grants Capability.delete ≡ false)
        × (grants_allow input grants Capability.manage_permissions ≡ false)
  unfolding grants_allow granted
  grants_allow-reserved [] = (refl, refl)
  grants_allow-reserved (g ∷ gs) = let h = grants_allow-reserved gs in ground arith

  reserved :
      (may input Capability.delete ≡ true → holds_everything input ≡ true)
      × (may input Capability.manage_permissions ≡ true → holds_everything input ≡ true)
  unfolding may has_source same
  reserved = let h = grants_allow-reserved input.grants in (λ t. ground arith, λ t. ground arith)

  -- Nobody holds an operation on an entry that is not fully visible to them: without reading there is
  -- no other right.
  pub allows-visibility :
      (c : Capability)
      → allows (evaluate_authorization input) c ≡ true
      → (evaluate_authorization input).visibility ≡ fully_visible
  allows-visibility c h =
      let (here, t) = allowed c h in
      read-visible ((capabilities_in_drive-Means input).holds Capability.read ∙ may-read c t) here

  -- Deleting an entry and managing its permissions come only from the drive's rights or from having
  -- created it, whatever was shared.
  pub reserved_operations :
      (c : Capability)
      → (c ≡ Capability.delete) ⊎ (c ≡ Capability.manage_permissions)
      → allows (evaluate_authorization input) c ≡ true
      → holds_everything input ≡ true
  reserved_operations c d h =
      let t = (allowed c h).1 in
      elim d [
        | inl e ↦ reserved.0 (ap (may input) (sym e) ∙ t)
        | inr e ↦ reserved.1 (ap (may input) (sym e) ∙ t)
      ]

  -- On a system folder nobody renames, replaces content, deletes or manages permissions.
  pub system_entries_are_protected :
      (kind : SystemEntryKind)
      → input.system_kind ≡ some kind
      → (c : Capability) → allows (evaluate_authorization input) c ≡ true
      → (c ≡ Capability.read) ⊎ (c ≡ Capability.create_child)
  unfolding may
  system_entries_are_protected kind e c h =
      let t = (allowed c h).1 in left_open-cases kind c (ground (arith, ap (λ k. left_open k c) e))

  grants_allow-same :
      (more grants : List (GrantApplication Time)) (c : Capability)
      → grants_allow (record input { grants = more }) grants c ≡ grants_allow input grants c
  unfolding grants_allow grant_counts
  grants_allow-same more [] c = refl
  grants_allow-same more (g ∷ gs) c = rw (grants_allow-same more gs c)

  grants_allow-more :
      (g : GrantApplication Time) (grants : List (GrantApplication Time)) (c : Capability)
      → grants_allow input grants c ≡ true
      → grants_allow input (g ∷ grants) c ≡ true
  unfolding grants_allow
  grants_allow-more g grants c h = ground arith

  may_with_grant :
      (g : GrantApplication Time) (c : Capability)
      → may input c ≡ true
      → may (record input { grants = g ∷ input.grants }) c ≡ true
  unfolding may has_source holds_everything
  may_with_grant g c t =
      rw (grants_allow-same (g ∷ input.grants) (g ∷ input.grants) c)
        (ground (arith, grants_allow-more g input.grants c))

  -- One more grant takes no right away.
  pub grants_only_add :
      (g : GrantApplication Time) (c : Capability)
      → allows (evaluate_authorization input) c ≡ true
      → allows (evaluate_authorization (record input { grants = g ∷ input.grants })) c ≡ true
  grants_only_add g c h =
      let (here, t) = allowed c h in
      evaluate_authorization-allows (record input { grants = g ∷ input.grants }) c
      ∙ rw here (may_with_grant g c t)

  -- The drive's owner, and the custodian of the Silicon that owns it, hold on an entry of the drive that
  -- is not a system folder exactly the operations that suit its kind.
  pub owner_holds_all :
      in_drive input ≡ true
      → has_owner_rights input.context.access ≡ true
      → input.system_kind ≡ none
      → (c : Capability) → allows (evaluate_authorization input) c ≡ suits_kind input.entry_kind c
  unfolding may has_source holds_everything
  owner_holds_all here o s c =
      evaluate_authorization-allows input c ∙ ground (arith, here, o, ap (λ k. left_open k c) s)
