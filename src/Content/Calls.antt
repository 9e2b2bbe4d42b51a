-- ===== src/Content/Calls.antt =====
-- The two ports of the content service (the traits `ContentRepository` of src/application/content.rs
-- and `ObjectStore` of src/application/ports.rs). A run keeps the calls that it has made, the last
-- first; what a port answers is any function of them. The context of the request goes unchanged to
-- every call of the repository and is not written.
pub mod Steps
use silicon_briefcase.Prelude.{ℕ, Option, none, some, List, [], ◌∷◌, Result, ok, err}
use silicon_briefcase.Text.{Str, codes}
use silicon_briefcase.Storage.{
  StorageTarget, ObjectKey, ObjectChecksum, StoredObject, StoredPart, ObjectMetadata,
  ObjectStoreError, ByteRange,
}
use silicon_briefcase.Error.{AppError}
use silicon_briefcase.Multipart.Plan.{MultipartPlan}
use silicon_briefcase.Content.{
  Idempotency, StagedContent, SmallUploadCommand, InitiateMultipartCommand,
  CompleteMultipartCommand, RestoreVersionCommand, ConfigureStorageCommand, MultipartReceipt,
  ContentIntent, OpenObject, StorageConfigurationResult, Prepared, SmallUploadPreparation,
  MultipartPreparation, MultipartPartTarget, MultipartCompletionPreparation, MultipartAbortTarget,
  DownloadTarget, RestorePreparation, StorageConfigurationPreparation,
}

pub record UploadPartRequest : Type 0 where
  pub target : StorageTarget
  pub key : ObjectKey
  pub provider_upload_id : Str
  pub part_number : ℕ
  pub path : Str
  pub offset : ℕ
  pub size : ℕ
  pub checksum_sha256 : List ℕ

pub record DownloadRangeRequest : Type 0 where
  pub target : StorageTarget
  pub key : ObjectKey
  pub provider_version_id : Option Str
  pub path : Str
  pub offset : ℕ
  pub size : ℕ
  pub if_match : Option Str

pub record CopyObjectRequest : Type 0 where
  pub target : StorageTarget
  pub source : ObjectKey
  pub source_provider_version_id : Option Str
  pub destination : ObjectKey
  pub content_type : Str
  pub expected_size : ℕ
  pub expected_checksum : ObjectChecksum

pub record OpenObjectRequest : Type 0 where
  pub target : StorageTarget
  pub key : ObjectKey
  pub provider_version_id : Option Str
  pub range : Option ByteRange

-- The calls of object storage.
pub data ObjectCall : Type 0 where
  put_file : StorageTarget → ObjectKey → Str → Str → ℕ → List ℕ → ObjectCall
  open_object : OpenObjectRequest → ObjectCall
  get_to_file : StorageTarget → ObjectKey → Option Str → Str → ObjectCall
  get_range_to_file : DownloadRangeRequest → ObjectCall
  head : StorageTarget → ObjectKey → Option Str → ObjectCall
  copy : CopyObjectRequest → ObjectCall
  delete : StorageTarget → ObjectKey → Option Str → ObjectCall
  create_multipart : StorageTarget → ObjectKey → Str → ObjectCall
  upload_part : UploadPartRequest → ObjectCall
  complete_multipart : StorageTarget → ObjectKey → Str → List StoredPart → ℕ → ObjectCall
  abort_multipart : StorageTarget → ObjectKey → Str → ObjectCall
  validate_configuration : StorageTarget → Str → ObjectCall

-- The calls of the repository, the clock and the file system. A read names the path, the position
-- that the file has kept, and the number of bytes wanted.
pub data Call : Type 0 where
  object : ObjectCall → Call
  prepare_small_upload : SmallUploadCommand → StagedContent → Call
  commit_small_upload :
      SmallUploadCommand → StagedContent → SmallUploadPreparation → StoredObject → Call
  release_operation : Str → Idempotency → Call
  prepare_multipart : InitiateMultipartCommand → MultipartPlan → ℕ → Call
  commit_multipart_initialization : InitiateMultipartCommand → MultipartPreparation → Str → Call
  authorize_multipart_part : ℕ → ℕ → Call
  record_multipart_part : ℕ → ℕ → Str → StagedContent → Call
  prepare_multipart_completion : CompleteMultipartCommand → Call
  commit_multipart_completion :
      CompleteMultipartCommand → MultipartCompletionPreparation → StoredObject → Call
  abort_multipart_session : ℕ → Call
  authorize_download : ℕ → Call
  record_content_access : ℕ → ContentIntent → Call
  prepare_version_restore : RestoreVersionCommand → Call
  renew_version_restore_lease : RestoreVersionCommand → Call
  commit_version_restore : RestoreVersionCommand → RestorePreparation → StoredObject → Call
  prepare_storage_configuration : ConfigureStorageCommand → Call
  activate_storage_configuration :
      ConfigureStorageCommand → StorageConfigurationPreparation → ℕ → Call
  fail_storage_configuration :
      ConfigureStorageCommand → StorageConfigurationPreparation → ℕ → Str → Call
  now_utc : Call
  create_dir_all : Call
  create_temporary : Str → Call
  open_file : Str → Call
  seek_file : Str → ℕ → Call
  read_file : Str → ℕ → ℕ → Call
  read_to_end : Str → Call

abbrev pub Calls : Type 0
Calls = List Call

-- What the ports answer to the first call of a history.
pub record ObjectStore : Type 0 where
  pub stored : Calls → Result StoredObject ObjectStoreError
  pub opened : Calls → Result OpenObject ObjectStoreError
  pub metadata : Calls → Result ObjectMetadata ObjectStoreError
  pub identifier : Calls → Result Str ObjectStoreError
  pub done : Calls → Result Unit ObjectStoreError

pub record ContentRepository : Type 0 where
  pub small_upload : Calls → Result (Prepared SmallUploadPreparation ℕ) AppError
  pub session : Calls → Result (Prepared MultipartPreparation MultipartReceipt) AppError
  pub receipt : Calls → Result MultipartReceipt AppError
  pub part_target : Calls → Result MultipartPartTarget AppError
  pub completion : Calls → Result (Prepared MultipartCompletionPreparation ℕ) AppError
  pub abort_target : Calls → Result (Option MultipartAbortTarget) AppError
  pub download_target : Calls → Result DownloadTarget AppError
  pub restore : Calls → Result (Prepared RestorePreparation ℕ) AppError
  pub configuration :
      Calls → Result (Prepared StorageConfigurationPreparation StorageConfigurationResult) AppError
  pub configured : Calls → Result StorageConfigurationResult AppError
  pub entry : Calls → Result ℕ AppError
  pub recorded : Calls → Result Unit AppError

-- The file system: a path, a step that may fail, and the bytes read.
pub record FileSystem : Type 0 where
  pub temporary : Calls → Result Str Unit
  pub prepared : Calls → Result Unit Unit
  pub bytes : Calls → Result (List ℕ) Unit

-- The service with its two ports, the clock, the file system, and SHA-256 and Base64 of the crates
-- `sha2` and `base64`.
pub record ContentService : Type 0 where
  pub repository : ContentRepository
  pub objects : ObjectStore
  pub clock : Calls → ℕ
  pub files : FileSystem
  pub sha256 : List ℕ → List ℕ
  pub encode_base64 : List ℕ → Str
  pub decode_base64 : Str → Option (List ℕ)

-- A step of a run: a value, and the calls with those that it made.
abbrev pub Action : Type 0 → Type 0
Action A = Calls → A × Calls

abbrev pub perform : {A : Type 0} → Call → (Calls → A) → Action A
perform call answer calls = (answer (call ∷ calls), call ∷ calls)

-- A fallible step and what follows its value: the `?` operator.
abbrev pub try :
    {A B E : Type 0} → Action (Result A E) → (A → Action (Result B E)) → Action (Result B E)
try step next calls =
    let (result, calls') = step calls in
    elim result [ ok a ↦ next a calls' | err e ↦ (err e, calls') ]

-- A value that takes no step.
abbrev pub pure : {A : Type 0} → A → Action A
pure a calls = (a, calls)
