-- ===== src/Permission/Rights.antt =====
-- src/domain/permission.rs: the rights that a grant conveys, and their bit set.
pub mod Bits
use Prim.Native.Nat.{bit_and, bit_or}
use silicon_briefcase.Prelude.{
  ℕ, ◌-◌, Bool, true, false, not, ◌||◌, List, [], ◌∷◌, Result, ok, err, ◌==◌, if◌then◌else◌,
}

pub data AccessRight : Type 0 where
  read write update delete : AccessRight

abbrev all_access_rights : List AccessRight
all_access_rights = read ∷ write ∷ update ∷ delete ∷ []

-- The labels that an entry response carries.
pub data EffectiveAccess : Type 0 where
  read write update delete manage_permissions : EffectiveAccess

unfoldable satisfied_by : AccessRight → EffectiveAccess
satisfied_by AccessRight.read = EffectiveAccess.read
satisfied_by AccessRight.write = EffectiveAccess.write
satisfied_by AccessRight.update = EffectiveAccess.update
satisfied_by AccessRight.delete = EffectiveAccess.delete

unfoldable pub right_mask : AccessRight → ℕ
right_mask AccessRight.read = 1
right_mask AccessRight.write = 2
right_mask AccessRight.update = 4
right_mask AccessRight.delete = 8

-- The bits of a `u8`.
abbrev pub GrantedAccess : Type 0
GrantedAccess = ℕ

-- `!bits` on a `u8`.
abbrev pub complement_u8 : ℕ → ℕ
complement_u8 bits = 255 - bits

abbrev read_only : GrantedAccess
read_only = 1

unfoldable pub fold_rights : ℕ → List AccessRight → ℕ
unfolding right_mask
fold_rights bits [] = bits
fold_rights bits (right ∷ rights) = fold_rights (bit_or bits (right_mask right)) rights

-- `GrantedAccess::new`.
unfoldable pub granted_access : List AccessRight → GrantedAccess
unfolding fold_rights
granted_access rights = fold_rights (right_mask AccessRight.read) rights

pub data GrantedAccessError : Type 0 where
  granted_access_error : GrantedAccessError

unfoldable pub from_bits : ℕ → Result GrantedAccess GrantedAccessError
unfolding right_mask
from_bits bits =
    let known =
      bit_or
        (bit_or (bit_or (right_mask AccessRight.read) (right_mask AccessRight.write))
          (right_mask AccessRight.update))
        (right_mask AccessRight.delete) in
    if not (bit_and bits (complement_u8 known) == 0)
      || bit_and bits (right_mask AccessRight.read) == 0
    then err granted_access_error
    else ok bits

-- `GrantedAccess::contains`.
unfoldable pub conveys : GrantedAccess → AccessRight → Bool
unfolding right_mask
conveys bits right = not (bit_and bits (right_mask right) == 0)

unfoldable is_read_only : GrantedAccess → Bool
unfolding right_mask
is_read_only bits = bits == right_mask AccessRight.read

unfoldable filter_rights : GrantedAccess → List AccessRight → List AccessRight
unfolding conveys
filter_rights bits [] = []
filter_rights bits (right ∷ rights) =
    let rest = filter_rights bits rights in if conveys bits right then right ∷ rest else rest

-- `GrantedAccess::rights`.
unfoldable pub rights : GrantedAccess → List AccessRight
unfolding filter_rights
rights bits = filter_rights bits all_access_rights
