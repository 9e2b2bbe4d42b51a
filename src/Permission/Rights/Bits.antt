-- ===== src/Permission/Rights/Bits.antt =====
-- The bit set of rights is the set of the rights that it was built from.
use Prim.Native.Nat.{bit_or}
use silicon_briefcase.Prelude.{
  ℕ, ◌<◌, ◌%◌, Bool, true, false, not, ◌&&◌, ◌||◌, ◌≡◌, ◌↔◌, refl, ap, ◌∙◌, List, [], ◌∷◌, Result,
  ok, err, ◌==◌, ltb, arith, all_below, all_below_sound,
}
use silicon_briefcase.Permission.Rights.{
  AccessRight, right_mask, fold_rights, granted_access, from_bits, conveys, rights, GrantedAccess,
}

unfoldable pub right_eq : AccessRight → AccessRight → Bool
right_eq AccessRight.read AccessRight.read = true
right_eq AccessRight.write AccessRight.write = true
right_eq AccessRight.update AccessRight.update = true
right_eq AccessRight.delete AccessRight.delete = true
right_eq _ _ = false

bool_eq : Bool → Bool → Bool
bool_eq true true = true
bool_eq false false = true
bool_eq _ _ = false

abbrev is_ok : {A E : Type 0} → Result A E → Bool
is_ok (ok a) = true
is_ok (err e) = false

bool_eq_sound : (a b : Bool) → bool_eq a b ≡ true → a ≡ b
unfolding bool_eq
bool_eq_sound a b h = ground arith

-- One more right in the set, for every set of four bits.
or_test : AccessRight → AccessRight → ℕ → Bool
or_test r d bits =
    bool_eq (conveys (bit_or bits (right_mask d)) r) (conveys bits r || right_eq d r)
    && ltb (bit_or bits (right_mask d)) 16

or_table : (r d : AccessRight) → all_below 16 (or_test r d) ≡ true
unfolding all_below or_test conveys bool_eq right_eq
or_table AccessRight.read AccessRight.read = refl
or_table AccessRight.read AccessRight.write = refl
or_table AccessRight.read _ = refl
or_table AccessRight.write AccessRight.read = refl
or_table AccessRight.write _ = refl
or_table AccessRight.update AccessRight.read = refl
or_table AccessRight.update _ = refl
or_table AccessRight.delete AccessRight.read = refl
or_table AccessRight.delete _ = refl

or_right :
    (r d : AccessRight) (bits : ℕ)
    → bits < 16
    → (conveys (bit_or bits (right_mask d)) r ≡ (conveys bits r || right_eq d r))
      × (bit_or bits (right_mask d) < 16)
unfolding or_test
or_right r d bits h =
    let t = all_below_sound 16 (or_test r d) bits (or_table r d) h in
    ground (
      arith,
      t,
      bool_eq_sound (conveys (bit_or bits (right_mask d)) r) (conveys bits r || right_eq d r),
    )

-- The rights of a list, as a test.
abbrev pub mem_right : AccessRight → List AccessRight → Bool
mem_right r [] = false
mem_right r (d ∷ ds) = right_eq d r || mem_right r ds

fold_rights_lem :
    (r : AccessRight) (ds : List AccessRight) (bits : ℕ)
    → bits < 16
    → (conveys (fold_rights bits ds) r ≡ (conveys bits r || mem_right r ds))
      × (fold_rights bits ds < 16)
unfolding fold_rights
fold_rights_lem r [] bits h = ground arith
fold_rights_lem r (d ∷ ds) bits h =
    let (a, b) = or_right r d bits h in
    let (p, q) = fold_rights_lem r ds (bit_or bits (right_mask d)) b in (ground arith, q)

read_bit : (r : AccessRight) → conveys 1 r ≡ right_eq AccessRight.read r
unfolding conveys right_eq
read_bit AccessRight.read = refl
read_bit _ = refl

-- A set built from requested rights conveys read, the requested rights, and nothing else.
pub conveys-granted_access :
    (rs : List AccessRight) (r : AccessRight)
    → conveys (granted_access rs) r ≡ (right_eq AccessRight.read r || mem_right r rs)
unfolding granted_access right_mask
conveys-granted_access rs r = (fold_rights_lem r rs 1 (omega arith)).0 ∙ rw (read_bit r)

granted_access-lt : (rs : List AccessRight) → granted_access rs < 16
unfolding granted_access right_mask
granted_access-lt rs = (fold_rights_lem AccessRight.read rs 1 (omega arith)).1

is_ok_sound : {A E : Type 0} (r : Result A E) → is_ok r ≡ true → (a : A) × (r ≡ ok a)
is_ok_sound (ok a) h = (a, refl)
is_ok_sound (err e) h = absurd (cc)

from_bits_test : ℕ → Bool
from_bits_test bits = bool_eq (is_ok (from_bits bits)) (ltb bits 16 && bits % 2 == 1)

from_bits_table : all_below 256 from_bits_test ≡ true
unfolding all_below from_bits_test from_bits bool_eq
from_bits_table = refl

from_bits_same : (bits : ℕ) (a : GrantedAccess) → from_bits bits ≡ ok a → a ≡ bits
unfolding from_bits
from_bits_same bits a h = ground arith

-- A stored byte, below 256, is accepted exactly when it has the read bit and no bit above the fourth, and it is
-- then taken as it is.
pub from_bits_iff :
    (bits : ℕ) → bits < 256 → (from_bits bits ≡ ok bits) ↔ ((bits < 16) × (bits % 2 ≡ 1))
unfolding from_bits_test
from_bits_iff bits h =
    let t = all_below_sound 256 from_bits_test bits from_bits_table h in
    let same = bool_eq_sound (is_ok (from_bits bits)) (ltb bits 16 && bits % 2 == 1) t in
    (λ e. ground (arith, same, e), λ e. accept bits (same ∙ ground arith))
  where
    accept : (b : ℕ) → is_ok (from_bits b) ≡ true → from_bits b ≡ ok b
    accept b e = let (a, p) = is_ok_sound (from_bits b) e in p ∙ ap ok (from_bits_same b a p)

-- Sixteen sets: those with the read bit are odd, and are rebuilt from their list of rights.
rebuild_test : ℕ → Bool
rebuild_test bits =
    not (conveys bits AccessRight.read) || (bits % 2 == 1 && granted_access (rights bits) == bits)

rebuild_table : all_below 16 rebuild_test ≡ true
unfolding all_below rebuild_test conveys granted_access rights
rebuild_table = refl

-- What a built set stores, it reads back: as bits, and as the list of its rights.
pub granted_access_roundtrip :
    (rs : List AccessRight)
    → (from_bits (granted_access rs) ≡ ok (granted_access rs))
      × (granted_access (rights (granted_access rs)) ≡ granted_access rs)
unfolding rebuild_test right_eq
granted_access_roundtrip rs =
    let b = granted_access rs in
    let small = granted_access-lt rs in
    let has_read : conveys b AccessRight.read ≡ true = conveys-granted_access rs AccessRight.read in
    let t = all_below_sound 16 rebuild_test b rebuild_table small in
    ((from_bits_iff b (omega arith)).1 (small, ground arith), ground arith)
