-- ===== src/Content/Restore.antt =====
-- src/application/content.rs: the restore of a version into a new object.
pub mod Integrity
pub mod Copying
use silicon_briefcase.Prelude.{
  ℕ, zero, suc, ◌+◌, ◌-◌, ◌*◌, Bool, true, false, not, ◌&&◌, ◌||◌, Option, none, some, List, [],
  ◌∷◌, ◌++◌, Result, ok, err, map_err, ok_or, checked_add, ltb, ◌==◌, if◌then◌else◌, length,
}
use silicon_briefcase.Text.{Str, codes, str_eq, decimal}
use silicon_briefcase.Error.{AppError}
use silicon_briefcase.Storage.{
  EncryptionMode, sse_s3, sse_kms, StorageTarget, ObjectKey, ObjectChecksum, ObjectChecksumType,
  full_object, composite, ObjectChecksumError, object_checksum, StoredObject, StoredPart,
  ObjectMetadata, ObjectStoreError,
}
use silicon_briefcase.Content.{RestorePreparation}

-- Derived equalities.
abbrev checksum_type_eq : ObjectChecksumType → ObjectChecksumType → Bool
checksum_type_eq full_object full_object = true
checksum_type_eq composite composite = true
checksum_type_eq _ _ = false

abbrev pub checksum_eq : ObjectChecksum → ObjectChecksum → Bool
checksum_eq a b =
    checksum_type_eq a.checksum_type b.checksum_type && str_eq a.encoded_value b.encoded_value

-- `checksum.as_ref() == Some(expected)`.
abbrev pub has_checksum : Option ObjectChecksum → ObjectChecksum → Bool
has_checksum none expected = false
has_checksum (some checksum) expected = checksum_eq checksum expected

abbrev option_eq : Option Str → Option Str → Bool
option_eq none none = true
option_eq (some a) (some b) = str_eq a b
option_eq _ _ = false

abbrev encryption_eq : EncryptionMode → EncryptionMode → Bool
encryption_eq sse_s3 sse_s3 = true
encryption_eq sse_kms sse_kms = true
encryption_eq _ _ = false

abbrev pub target_eq : StorageTarget → StorageTarget → Bool
target_eq a b =
    str_eq a.bucket b.bucket
    && str_eq a.region b.region
    && str_eq a.prefix b.prefix
    && option_eq a.role_arn b.role_arn
    && option_eq a.external_id b.external_id
    && encryption_eq a.encryption b.encryption
    && option_eq a.kms_key_arn b.kms_key_arn

abbrev pub conflict_code : {A : Type 0} → Str → Result A AppError
conflict_code code = err (AppError.conflict code)

unfoldable pub validate_restore_source : ObjectMetadata → RestorePreparation → Result Unit AppError
validate_restore_source metadata preparation =
    if metadata.size == preparation.size
    then if has_checksum metadata.checksum preparation.checksum
      then ok tt
      else conflict_code (codes "version_checksum_mismatch")
    else conflict_code (codes "version_size_mismatch")

unfoldable pub validate_restored_object :
    StoredObject → RestorePreparation → ObjectChecksum → Result Unit AppError
validate_restored_object stored preparation expected_checksum =
    if not (str_eq stored.key preparation.destination_key) || not (stored.size == preparation.size)
    then conflict_code (codes "restored_object_mismatch")
    else if has_checksum stored.checksum expected_checksum
    then ok tt
    else conflict_code (codes "restored_object_checksum_mismatch")

unfoldable pub source_checksum_matches : ObjectChecksum → ObjectChecksum → ObjectChecksum → Bool
source_checksum_matches expected full_checksum composite_checksum = elim expected.checksum_type [
  | full_object ↦ checksum_eq expected full_checksum
  | composite ↦ checksum_eq expected composite_checksum
]

abbrev invalid_checksum : ObjectChecksumError → AppError
invalid_checksum _ = AppError.internal (codes "object_checksum")

-- The bytes of the parts' digests, one after the other.
unfoldable pub part_digests : List StoredPart → List ℕ
part_digests [] = []
part_digests (part ∷ parts) = part.checksum_sha256 ++ part_digests parts

module _ (sha256 : List ℕ → List ℕ) (encode_base64 : List ℕ → Str)
    (decode_base64 : Str → Option (List ℕ)) where
  unfoldable pub full_object_checksum : List ℕ → Result ObjectChecksum AppError
  full_object_checksum digest =
      map_err invalid_checksum (object_checksum decode_base64 full_object (encode_base64 digest))

  unfoldable pub composite_checksum : List StoredPart → Result ObjectChecksum AppError
  composite_checksum parts = map_err invalid_checksum (
      object_checksum decode_base64 composite
        (encode_base64 (sha256 (part_digests parts)) ++ b'-' ∷ decimal (length parts)))
