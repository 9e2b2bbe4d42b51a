-- ===== src/Permission/Capability.antt =====
-- src/domain/permission.rs: the operations that policy checks, and their bit set.
pub mod Meaning
use Prim.Native.Nat.{bit_and, bit_or}
use silicon_briefcase.Prelude.{ℕ, ◌-◌, Bool, not, ◌||◌, List, [], ◌∷◌, ◌++◌, ◌==◌, if◌then◌else◌}
use silicon_briefcase.Permission.Rights.{
  AccessRight, EffectiveAccess, GrantedAccess, conveys, complement_u8,
}

pub data Capability : Type 0 where
  read create_child update_metadata write_content delete manage_permissions : Capability

unfoldable pub capability_mask : Capability → ℕ
capability_mask Capability.read = 1
capability_mask Capability.create_child = 2
capability_mask Capability.update_metadata = 4
capability_mask Capability.write_content = 8
capability_mask Capability.delete = 16
capability_mask Capability.manage_permissions = 32

abbrev all_capabilities : List Capability
all_capabilities =
    Capability.read ∷ Capability.create_child ∷ Capability.update_metadata
    ∷ Capability.write_content ∷ Capability.delete ∷ Capability.manage_permissions ∷ []

-- The bits of a `u8`.
abbrev pub CapabilitySet : Type 0
CapabilitySet = ℕ

abbrev pub empty : CapabilitySet
empty = 0

-- `(1 << ALL_CAPABILITIES.len()) - 1`.
abbrev pub full : CapabilitySet
full = 63

unfoldable pub contains : CapabilitySet → Capability → Bool
unfolding capability_mask
contains set capability = not (bit_and set (capability_mask capability) == 0)

unfoldable pub insert : CapabilitySet → Capability → CapabilitySet
unfolding capability_mask
insert set capability = bit_or set (capability_mask capability)

unfoldable pub remove : CapabilitySet → Capability → CapabilitySet
unfolding capability_mask
remove set capability = bit_and set (complement_u8 (capability_mask capability))

unfoldable pub union_with : CapabilitySet → CapabilitySet → CapabilitySet
union_with set other = bit_or set other

unfoldable set_is_empty : CapabilitySet → Bool
set_is_empty set = set == 0

unfoldable pub from_granted_access : GrantedAccess → CapabilitySet
from_granted_access access =
    let capabilities = capability_mask Capability.read in
    let written =
      if conveys access AccessRight.write
      then insert capabilities Capability.create_child
      else capabilities in
    if conveys access AccessRight.update
    then insert (insert written Capability.update_metadata) Capability.write_content
    else written

abbrev push_if : Bool → EffectiveAccess → List EffectiveAccess
push_if b label = if b then label ∷ [] else []

unfoldable effective_access : CapabilitySet → List EffectiveAccess
effective_access set =
    push_if (contains set Capability.read) EffectiveAccess.read
    ++ push_if (contains set Capability.create_child) EffectiveAccess.write
    ++ push_if (contains set Capability.update_metadata || contains set Capability.write_content)
        EffectiveAccess.update
    ++ push_if (contains set Capability.delete) EffectiveAccess.delete
    ++ push_if (contains set Capability.manage_permissions) EffectiveAccess.manage_permissions
