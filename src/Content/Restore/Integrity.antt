-- ===== src/Content/Restore/Integrity.antt =====
-- What the checks of a restore accept.
use silicon_briefcase.Prelude.{◌≡◌, ◌⊎◌, refl, ap, ap₂, true, Option, none, some, ok, arith}
use silicon_briefcase.Text.{Str}
use silicon_briefcase.Text.Trim.{str_eq_sound}
use silicon_briefcase.Storage.{
  ObjectChecksum, ObjectChecksumType, full_object, composite, StoredObject, ObjectMetadata,
}
use silicon_briefcase.Content.{RestorePreparation}
use silicon_briefcase.Content.Restore.{
  checksum_type_eq, checksum_eq, has_checksum, validate_restore_source, validate_restored_object,
  source_checksum_matches,
}

checksum_type_eq_sound : (a b : ObjectChecksumType) → checksum_type_eq a b ≡ true → a ≡ b
checksum_type_eq_sound full_object full_object h = refl
checksum_type_eq_sound composite composite h = refl
checksum_type_eq_sound full_object composite h = absurd (cc)
checksum_type_eq_sound composite full_object h = absurd (cc)

abbrev described : ObjectChecksumType → Str → ObjectChecksum
described kind value = record { checksum_type = kind; encoded_value = value }

pub checksum_eq_sound : (a b : ObjectChecksum) → checksum_eq a b ≡ true → a ≡ b
checksum_eq_sound a b h =
    ap₂ described (checksum_type_eq_sound a.checksum_type b.checksum_type (ground arith))
      (str_eq_sound a.encoded_value b.encoded_value (ground arith))

has_checksum_sound :
    (checksum : Option ObjectChecksum) (expected : ObjectChecksum)
    → has_checksum checksum expected ≡ true
    → checksum ≡ some expected
has_checksum_sound none expected h = absurd (cc)
has_checksum_sound (some checksum) expected h = ap some (checksum_eq_sound checksum expected h)

-- A restored object is accepted only at the reserved key, with the size of the version and with exactly the
-- expected checksum.
pub validate_restored_object_sound :
    (stored : StoredObject) (p : RestorePreparation) (expected : ObjectChecksum)
    → validate_restored_object stored p expected ≡ ok tt
    → (stored.key ≡ p.destination_key) × (stored.size ≡ p.size) × (stored.checksum ≡ some expected)
unfolding validate_restored_object
validate_restored_object_sound stored p expected h =
    ground (
      arith,
      str_eq_sound stored.key p.destination_key,
      has_checksum_sound stored.checksum expected,
    )

-- A source is accepted exactly with the size and the checksum of the version.
pub validate_restore_source_sound :
    (metadata : ObjectMetadata) (p : RestorePreparation)
    → validate_restore_source metadata p ≡ ok tt
    → (metadata.size ≡ p.size) × (metadata.checksum ≡ some p.checksum)
unfolding validate_restore_source
validate_restore_source_sound metadata p h =
    ground (arith, has_checksum_sound metadata.checksum p.checksum)

-- The bytes that were copied are those of the version: the checksum of the version is the one that was
-- computed over them, of the same kind.
pub source_checksum_matches_sound :
    (expected full parts : ObjectChecksum)
    → source_checksum_matches expected full parts ≡ true
    → ((expected.checksum_type ≡ full_object) × (expected ≡ full))
      ⊎ ((expected.checksum_type ≡ composite) × (expected ≡ parts))
unfolding source_checksum_matches
source_checksum_matches_sound expected full parts h =
    ground (arith, checksum_eq_sound expected full, checksum_eq_sound expected parts)
