-- ===== src/Permission/Capability/Meaning.antt =====
-- What a capability set means: the test that it is, and how each operation changes that test.
use silicon_briefcase.Prelude.{
  ℕ, ◌<◌, Bool, true, false, not, ◌&&◌, ◌||◌, ◌≡◌, refl, ap, ap₂, ◌∙◌, ltb, ltb→lt, if◌then◌else◌,
  arith, all_below, all_below_sound,
}
use silicon_briefcase.Permission.Rights.{AccessRight, GrantedAccess, conveys}
use silicon_briefcase.Permission.Capability.{
  Capability, CapabilitySet, capability_mask, empty, full, contains, insert, remove, union_with,
  from_granted_access,
}

-- `set` holds exactly the capabilities that pass `test`.
pub record Means (set : CapabilitySet) (test : Capability → Bool) : Type 0 where
  pub small : set < 64
  pub holds : (c : Capability) → contains set c ≡ test c

unfoldable pub same : Capability → Capability → Bool
same Capability.read Capability.read = true
same Capability.create_child Capability.create_child = true
same Capability.update_metadata Capability.update_metadata = true
same Capability.write_content Capability.write_content = true
same Capability.delete Capability.delete = true
same Capability.manage_permissions Capability.manage_permissions = true
same _ _ = false

abbrev bool_eq : Bool → Bool → Bool
bool_eq true b = b
bool_eq false b = not b

bool_eq_sound : (a b : Bool) → bool_eq a b ≡ true → a ≡ b
bool_eq_sound a b h = ground arith

-- A test of every capability, and of one capability.
abbrev every : (Capability → Bool) → Bool
every p =
    p Capability.read
    && p Capability.create_child
    && p Capability.update_metadata
    && p Capability.write_content
    && p Capability.delete
    && p Capability.manage_permissions

every_sound : (p : Capability → Bool) → every p ≡ true → (c : Capability) → p c ≡ true
every_sound p h Capability.read = ground arith
every_sound p h _ = ground arith

insert_test : Capability → ℕ → Bool
insert_test d set =
    ltb (insert set d) 64
    && every (λ c. bool_eq (contains (insert set d) c) (contains set c || same d c))

remove_test : Capability → ℕ → Bool
remove_test d set =
    ltb (remove set d) 64
    && every (λ c. bool_eq (contains (remove set d) c) (contains set c && not (same d c)))

insert_table : all_below 64 (λ s. every (λ d. insert_test d s)) ≡ true
unfolding all_below insert_test contains insert same
insert_table = refl

remove_table : all_below 64 (λ s. every (λ d. remove_test d s)) ≡ true
unfolding all_below remove_test contains remove same
remove_table = refl

union_test : ℕ → ℕ → Bool
union_test s t =
    ltb (union_with s t) 64
    && every (λ c. bool_eq (contains (union_with s t) c) (contains s c || contains t c))

union_table : all_below 64 (λ s. all_below 64 (union_test s)) ≡ true
unfolding all_below union_test contains union_with
union_table = refl

both : (a b : Bool) → (a && b) ≡ true → (a ≡ true) × (b ≡ true)
both a b h = ground arith

-- From a checked table entry: the new set is small and has the stated test.
entry :
    (n : ℕ) (f g : Capability → Bool)
    → (ltb n 64 && every (λ c. bool_eq (f c) (g c))) ≡ true
    → (n < 64) × ((c : Capability) → f c ≡ g c)
entry n f g h =
    let (a, b) = both (ltb n 64) (every (λ c. bool_eq (f c) (g c))) h in
    (ltb→lt n 64 a, λ c. bool_eq_sound (f c) (g c) (every_sound (λ c. bool_eq (f c) (g c)) b c))

module _ {s : CapabilitySet} {f : Capability → Bool} (m : Means s f) where
  pub Means-insert : (d : Capability) → Means (insert s d) (λ c. f c || same d c)
  unfolding insert_test
  Means-insert d =
      let t = all_below_sound 64 (λ s. every (λ d. insert_test d s)) s insert_table m.small in
      let (a, b) =
        entry (insert s d) (λ c. contains (insert s d) c) (λ c. contains s c || same d c)
          (every_sound (λ d. insert_test d s) t d) in
      record { small = a; holds = λ c. b c ∙ ap (λ x. x || same d c) (m.holds c) }

  pub Means-remove : (d : Capability) → Means (remove s d) (λ c. f c && not (same d c))
  unfolding remove_test
  Means-remove d =
      let t = all_below_sound 64 (λ s. every (λ d. remove_test d s)) s remove_table m.small in
      let (a, b) =
        entry (remove s d) (λ c. contains (remove s d) c) (λ c. contains s c && not (same d c))
          (every_sound (λ d. remove_test d s) t d) in
      record { small = a; holds = λ c. b c ∙ ap (λ x. x && not (same d c)) (m.holds c) }

  pub Means-union_with :
      {t : CapabilitySet} {g : Capability → Bool}
      → Means t g
      → Means (union_with s t) (λ c. f c || g c)
  unfolding union_test
  Means-union_with {t} {g} k =
      let row = all_below_sound 64 (λ s. all_below 64 (union_test s)) s union_table m.small in
      let (a, b) =
        entry (union_with s t) (λ c. contains (union_with s t) c)
          (λ c. contains s c || contains t c) (all_below_sound 64 (union_test s) t row k.small) in
      record { small = a; holds = λ c. b c ∙ ap₂ (λ x y. x || y) (m.holds c) (k.holds c) }

  pub Means-if :
      {t : CapabilitySet} {g : Capability → Bool} (b : Bool)
      → Means t g
      → Means (if b then s else t) (λ c. if b then f c else g c)
  Means-if true k = m
  Means-if false k = k

  pub Means-same : {g : Capability → Bool} → ((c : Capability) → f c ≡ g c) → Means s g
  Means-same h = record { small = m.small; holds = λ c. m.holds c ∙ h c }

pub Means-empty : Means empty (λ c. false)
unfolding contains
Means-empty = record { small = omega arith; holds = none_held }
  where
    none_held : (c : Capability) → contains empty c ≡ false
    none_held Capability.read = refl
    none_held _ = refl

pub Means-full : Means full (λ c. true)
unfolding contains
Means-full = record { small = omega arith; holds = all_held }
  where
    all_held : (c : Capability) → contains full c ≡ true
    all_held Capability.read = refl
    all_held _ = refl

Means-read : Means 1 (λ c. same Capability.read c)
unfolding contains same
Means-read = record { small = omega arith; holds = read_held }
  where
    read_held : (c : Capability) → contains 1 c ≡ same Capability.read c
    read_held Capability.read = refl
    read_held _ = refl

-- What a grant's rights allow: read always, creating children with `write`, renaming, moving and
-- replacing content with `update`; deleting and managing permissions never.
unfoldable pub granted : GrantedAccess → Capability → Bool
granted access Capability.read = true
granted access Capability.create_child = conveys access AccessRight.write
granted access Capability.update_metadata = conveys access AccessRight.update
granted access Capability.write_content = conveys access AccessRight.update
granted access Capability.delete = false
granted access Capability.manage_permissions = false

-- The capability set of a grant holds exactly what its rights allow.
pub from_granted_access-Means :
    (access : GrantedAccess) → Means (from_granted_access access) (granted access)
unfolding from_granted_access capability_mask granted same
from_granted_access-Means access =
    let written =
      Means-if (Means-insert Means-read Capability.create_child) (conveys access AccessRight.write)
        Means-read in
    let updated =
      Means-insert (Means-insert written Capability.update_metadata) Capability.write_content in
    Means-same (Means-if updated (conveys access AccessRight.update) written) shown
  where
    shown :
        (c : Capability)
        → (if conveys access AccessRight.update
            then ((if conveys access AccessRight.write
                  then same Capability.read c || same Capability.create_child c
                  else same Capability.read c)
                || same Capability.update_metadata c)
              || same Capability.write_content c
            else (if conveys access AccessRight.write
                then same Capability.read c || same Capability.create_child c
                else same Capability.read c))
          ≡ granted access c
    shown Capability.read = ground arith
    shown _ = ground arith
