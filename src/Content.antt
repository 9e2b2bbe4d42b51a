-- ===== src/Content.antt =====
-- src/application/content.rs: the commands, preparations and results of the content service. An
-- identifier is a number, a time is a number of seconds, a digest is its list of bytes.
pub mod Range
pub mod Calls
pub mod Guard
pub mod Upload
pub mod Sessions
pub mod Completion
pub mod Reading
pub mod Transfer
pub mod Restore
pub mod Versions
pub mod Configure
mod Fixtures
mod Examples
use silicon_briefcase.Prelude.{ℕ, Bool, Option, List}
use silicon_briefcase.Text.{Str}
use silicon_briefcase.Storage.{StorageTarget, ObjectKey, ObjectChecksum, ByteRange, EncryptionMode}
use silicon_briefcase.Multipart.Plan.{MultipartPlan}
use silicon_briefcase.Multipart.Completion.{CompletedPart}

-- Every mutation carries a key and the digest of its request.
pub record Idempotency : Type 0 where
  pub key : Str
  pub request_hash : List ℕ

pub record UploadCommand : Type 0 where
  pub parent_id : ℕ
  pub name : Str
  pub content_type : Str
  pub idempotency : Idempotency
  pub self_destruct : Option ℕ

pub record StagedContent : Type 0 where
  pub path : Str
  pub offset : ℕ
  pub size : ℕ
  pub sha256 : List ℕ

pub record SmallUploadCommand : Type 0 where
  pub parent_id : ℕ
  pub name : Str
  pub content_type : Str
  pub idempotency : Idempotency
  pub self_destruct : Option ℕ

pub record InitiateMultipartCommand : Type 0 where
  pub parent_id : ℕ
  pub name : Str
  pub size : ℕ
  pub content_type : Str
  pub idempotency : Idempotency
  pub self_destruct : Option ℕ

pub record ClientCompletedPart : Type 0 where
  pub part_number : ℕ
  pub etag : Str

pub record CompleteMultipartCommand : Type 0 where
  pub content_sha256 : List ℕ
  pub upload_id : ℕ
  pub parts : List ClientCompletedPart
  pub idempotency : Idempotency

pub record RestoreVersionCommand : Type 0 where
  pub entry_id : ℕ
  pub version_id : ℕ
  pub idempotency : Idempotency

pub record ConfigureStorageCommand : Type 0 where
  pub bucket_name : Str
  pub region : Str
  pub role_arn : Str
  pub prefix : Str
  pub aws_account_id : Str
  pub encryption : EncryptionMode
  pub kms_key_arn : Option Str
  pub idempotency : Option Idempotency

pub record MultipartReceipt : Type 0 where
  pub upload_id : ℕ
  pub part_size : ℕ
  pub part_count : ℕ
  pub expires_at : ℕ

pub data ContentIntent : Type 0 where
  render download : ContentIntent

-- The body of an opened object is its list of bytes.
pub record OpenObject : Type 0 where
  pub total_size : ℕ
  pub range : Option ByteRange
  pub etag : Option Str
  pub body : List ℕ

pub record ContentDelivery : Type 0 where
  pub filename : Str
  pub content_type : Str
  pub total_size : ℕ
  pub range : Option ByteRange
  pub etag : Option Str
  pub body : List ℕ

pub record StorageConfigurationResult : Type 0 where
  pub configuration_id : ℕ
  pub configured : Bool
  pub tested_at : ℕ
  pub failure_reason : Option Str

-- The caller holds the lease of an operation, or its result is replayed.
pub data Prepared (T R : Type 0) : Type 0 where
  acquired : T → Prepared T R
  replay : R → Prepared T R

pub record SmallUploadPreparation : Type 0 where
  pub entry_id : ℕ
  pub target : StorageTarget
  pub key : ObjectKey

pub record MultipartPreparation : Type 0 where
  pub upload_id : ℕ
  pub plan : MultipartPlan
  pub target : StorageTarget
  pub key : ObjectKey
  pub expires_at : ℕ

pub record MultipartPartTarget : Type 0 where
  pub plan : MultipartPlan
  pub target : StorageTarget
  pub key : ObjectKey
  pub provider_upload_id : Str

pub record MultipartCompletionPreparation : Type 0 where
  pub entry_id : ℕ
  pub plan : MultipartPlan
  pub target : StorageTarget
  pub key : ObjectKey
  pub provider_upload_id : Str
  pub parts : List CompletedPart

pub record MultipartAbortTarget : Type 0 where
  pub target : StorageTarget
  pub key : ObjectKey
  pub provider_upload_id : Str

pub record DownloadTarget : Type 0 where
  pub entry_id : ℕ
  pub filename : Str
  pub content_type : Str
  pub size : ℕ
  pub target : StorageTarget
  pub key : ObjectKey
  pub provider_version_id : Option Str

pub record RestorePreparation : Type 0 where
  pub entry_id : ℕ
  pub new_version_id : ℕ
  pub source_target : StorageTarget
  pub source_key : ObjectKey
  pub source_provider_version_id : Option Str
  pub destination_target : StorageTarget
  pub destination_key : ObjectKey
  pub content_type : Str
  pub size : ℕ
  pub checksum : ObjectChecksum

pub record StorageConfigurationPreparation : Type 0 where
  pub configuration_id : ℕ
  pub target : StorageTarget
  pub expected_account_id : Str
