-- ===== src/Storage.antt =====
-- src/application/ports.rs: what object storage is told and what it answers. src/domain/storage.rs:
-- encryption.
pub mod Validation
use silicon_briefcase.Prelude.{
  ℕ, Bool, true, false, ◌&&◌, ◌||◌, Option, none, some, List, [], ◌∷◌, Result, ok, err, any, all,
  leb, ltb, ◌==◌, if◌then◌else◌, length,
}
use silicon_briefcase.Text.{
  Str, codes, is_empty, starts_with_char, ends_with_char, is_control, split, str_eq, rsplit_once,
  parse_u32,
}

pub data EncryptionMode : Type 0 where
  sse_s3 sse_kms : EncryptionMode

unfoldable requires_kms_key : EncryptionMode → Bool
requires_kms_key sse_s3 = false
requires_kms_key sse_kms = true

pub record StorageTarget : Type 0 where
  pub bucket : Str
  pub region : Str
  pub prefix : Str
  pub role_arn : Option Str
  pub external_id : Option Str
  pub encryption : EncryptionMode
  pub kms_key_arn : Option Str

-- An `ObjectKey` is its text.
abbrev pub ObjectKey : Type 0
ObjectKey = Str

pub data ObjectKeyError : Type 0 where
  object_key_error : ObjectKeyError

-- `contains("//")`.
unfoldable pub has_double_slash : Str → Bool
has_double_slash [] = false
has_double_slash (c ∷ s) = (c == b'/' && starts_with_char b'/' s) || has_double_slash s

abbrev pub is_relative_segment : Str → Bool
is_relative_segment s = is_empty s || str_eq s (codes ".") || str_eq s (codes "..")

-- `ObjectKey::new`.
unfoldable pub object_key : Str → Result ObjectKey ObjectKeyError
object_key value =
    if is_empty value
      || starts_with_char b'/' value
      || ends_with_char b'/' value
      || has_double_slash value
      || any is_relative_segment (split b'/' value)
      || any is_control value
    then err object_key_error
    else ok value

pub data ObjectChecksumType : Type 0 where
  full_object composite : ObjectChecksumType

-- The algorithm has the one value `Sha256`.
pub record ObjectChecksum : Type 0 where
  pub checksum_type : ObjectChecksumType
  pub encoded_value : Str

pub data ObjectChecksumError : Type 0 where
  object_checksum_error : ObjectChecksumError

-- `STANDARD.decode` of the crate `base64`, with a failure as `none`.
module _ (decode_base64 : Str → Option (List ℕ)) where
  unfoldable pub valid_sha256_base64 : Str → Bool
  valid_sha256_base64 value = elim (decode_base64 value) [
    | none ↦ false
    | some decoded ↦ length decoded == 32
  ]

  abbrev in_part_range : Option ℕ → Bool
  in_part_range none = false
  in_part_range (some count) = leb 1 count && leb count 10000

  unfoldable pub valid_checksum : ObjectChecksumType → Str → Bool
  unfolding valid_sha256_base64
  valid_checksum full_object value = valid_sha256_base64 value
  valid_checksum composite value = elim (rsplit_once b'-' value) [
    | none ↦ false
    | some parts ↦ in_part_range (parse_u32 parts.1) && valid_sha256_base64 parts.0
  ]

  -- `ObjectChecksum::new`.
  unfoldable pub object_checksum :
      ObjectChecksumType → Str → Result ObjectChecksum ObjectChecksumError
  object_checksum checksum_type encoded_value =
      if valid_checksum checksum_type encoded_value
      then ok (record { checksum_type = checksum_type; encoded_value = encoded_value })
      else err object_checksum_error

pub record StoredObject : Type 0 where
  pub key : ObjectKey
  pub etag : Option Str
  pub provider_version_id : Option Str
  pub size : ℕ
  pub checksum : Option ObjectChecksum

pub record ObjectMetadata : Type 0 where
  pub size : ℕ
  pub etag : Option Str
  pub provider_version_id : Option Str
  pub checksum : Option ObjectChecksum

pub record StoredPart : Type 0 where
  pub part_number : ℕ
  pub etag : Str
  pub checksum_sha256 : List ℕ

-- The cause of an `Internal` failure is not read.
pub data ObjectStoreError : Type 0 where
  not_found conflict invalid_configuration unavailable internal : ObjectStoreError

-- An inclusive range of bytes.
pub record ByteRange : Type 0 where
  pub start : ℕ
  pub end : ℕ

pub data RangeRequest : Type 0 where
  from last : ℕ → RangeRequest
  between : ℕ → ℕ → RangeRequest
