-- ===== src/Content/Fixtures.antt =====
-- A service whose ports confirm everything, for the examples.
use silicon_briefcase.Prelude.{
  take, drop, true, ℕ, none, some, List, [], ◌∷◌, Result, ok, err, length, ◌==◌, if◌then◌else◌,
}
use silicon_briefcase.Text.{codes, str_eq}
use silicon_briefcase.Error.{AppError, forbidden}
use silicon_briefcase.Storage.{
  StorageTarget, sse_s3, ObjectChecksum, full_object, composite, StoredObject, ObjectMetadata,
  ObjectStoreError,
}
use silicon_briefcase.Multipart.Plan.{MultipartPlan}
use silicon_briefcase.Content.{
  Idempotency, StagedContent, SmallUploadCommand, SmallUploadPreparation, CompleteMultipartCommand,
  MultipartCompletionPreparation, MultipartPartTarget, RestoreVersionCommand, RestorePreparation,
  ConfigureStorageCommand, StorageConfigurationPreparation, StorageConfigurationResult,
  DownloadTarget, OpenObject, MultipartReceipt, acquired,
}
use silicon_briefcase.Content.Calls.{
  Calls, read_file, ContentRepository, ObjectStore, FileSystem, ContentService, object, head,
}

abbrev pub bucket : StorageTarget
bucket = record {
  bucket = codes "b";
  region = codes "r";
  prefix = [];
  role_arn = none;
  external_id = none;
  encryption = sse_s3;
  kms_key_arn = none;
}

abbrev pub digest : ObjectChecksum
digest = record { checksum_type = full_object; encoded_value = codes "sum" }

abbrev pub stored : StoredObject
stored = record {
  key = codes "k";
  etag = none;
  provider_version_id = some (codes "v1");
  size = 3;
  checksum = some digest;
}

abbrev pub metadata : ObjectMetadata
metadata = record {
  size = 3;
  etag = none;
  provider_version_id = some (codes "v1");
  checksum = some digest;
}

abbrev pub small : SmallUploadPreparation
small = record { entry_id = 7; target = bucket; key = codes "k" }

abbrev pub one_part_plan : MultipartPlan
one_part_plan = record { file_size = 3; part_size = 3; part_count = 1 }

abbrev pub completion : MultipartCompletionPreparation
completion = record {
  entry_id = 7;
  plan = one_part_plan;
  target = bucket;
  key = codes "k";
  provider_upload_id = codes "u";
  parts = record { part_number = 1; etag = codes "e"; byte_size = 3; checksum_sha256 = [] } ∷ [];
}

abbrev pub part_target : MultipartPartTarget
part_target = record {
  plan = one_part_plan;
  target = bucket;
  key = codes "k";
  provider_upload_id = codes "u";
}

abbrev pub restore : RestorePreparation
restore = record {
  entry_id = 7;
  new_version_id = 8;
  source_target = bucket;
  source_key = codes "old";
  source_provider_version_id = none;
  destination_target = bucket;
  destination_key = codes "k";
  content_type = codes "t";
  size = 3;
  checksum = digest;
}

abbrev pub configuration : StorageConfigurationPreparation
configuration = record { configuration_id = 1; target = bucket; expected_account_id = codes "a" }

abbrev pub configured : StorageConfigurationResult
configured = record {
  configuration_id = 1;
  configured = true;
  tested_at = 0;
  failure_reason = none;
}

abbrev pub download_target : DownloadTarget
download_target = record {
  entry_id = 7;
  filename = codes "f";
  content_type = codes "t";
  size = 3;
  target = bucket;
  key = codes "k";
  provider_version_id = none;
}

abbrev pub opened : OpenObject
opened = record { total_size = 3; range = none; etag = none; body = 1 ∷ 2 ∷ 3 ∷ [] }

abbrev receipt : MultipartReceipt
receipt = record { upload_id = 5; part_size = 3; part_count = 1; expires_at = 0 }

abbrev pub repository : Result ℕ AppError → ContentRepository
repository committed = record {
  small_upload = λ _. ok (acquired small);
  session = λ _. err forbidden;
  receipt = λ _. ok receipt;
  part_target = λ _. ok part_target;
  completion = λ _. ok (acquired completion);
  abort_target = λ _. ok none;
  download_target = λ _. ok download_target;
  restore = λ _. ok (acquired restore);
  configuration = λ _. ok (acquired configuration);
  configured = λ _. ok configured;
  entry = λ _. committed;
  recorded = λ _. ok tt;
}

abbrev pub objects : StoredObject → ObjectStore
objects stored = record {
  stored = λ _. ok stored;
  opened = λ _. ok opened;
  metadata = λ _. ok metadata;
  identifier = λ _. ok (codes "e");
  done = λ _. ok tt;
}

-- A digest that is the bytes themselves, and an encoding that writes one checksum.
abbrev pub service_with : Result ℕ AppError → StoredObject → FileSystem → ContentService
service_with committed stored files = record {
  repository = repository committed;
  objects = objects stored;
  clock = λ _. 0;
  files = files;
  sha256 = λ bytes. bytes;
  encode_base64 = λ _. codes "sum";
  decode_base64 = λ _. some (
      1 ∷ 2 ∷ 3 ∷ 4 ∷ 5 ∷ 6 ∷ 7 ∷ 8 ∷ 9 ∷ 10 ∷ 11 ∷ 12 ∷ 13 ∷ 14 ∷ 15 ∷ 16 ∷ 17 ∷ 18 ∷ 19 ∷ 20 ∷ 21
      ∷ 22 ∷ 23 ∷ 24 ∷ 25 ∷ 26 ∷ 27 ∷ 28 ∷ 29 ∷ 30 ∷ 31 ∷ 32 ∷ []);
}

-- A file system whose file holds three bytes.
abbrev pub files : FileSystem
files = record {
  temporary = λ _. ok (codes "/t");
  prepared = λ _. ok tt;
  bytes = λ _. ok (1 ∷ 2 ∷ 3 ∷ []);
}

abbrev pub service : ContentService
service = service_with (ok 7) stored files

-- The same, but what is assembled has a checksum composed of one part.
abbrev pub assembled : StoredObject
assembled = record stored {
  checksum = some (record { checksum_type = composite; encoded_value = codes "sum-1" });
}

abbrev pub assembling : ContentService
assembling = service_with (ok 7) assembled files

-- A file system that reads one byte of three at a time.
abbrev one_byte : Calls → Result (List ℕ) Unit
one_byte (read_file path position wanted ∷ calls) = ok (take 1 (drop position (1 ∷ 2 ∷ 3 ∷ [])))
one_byte _ = ok []

abbrev pub slow_files : FileSystem
slow_files = record { temporary = λ _. ok []; prepared = λ _. ok tt; bytes = one_byte }

abbrev pub reading : ContentService
reading = service_with (ok 7) stored slow_files

-- The same, but the commit is refused.
abbrev pub refusing : ContentService
refusing = service_with (err forbidden) stored files

abbrev pub idempotency : Idempotency
idempotency = record { key = codes "retry-me"; request_hash = [] }

abbrev pub staged : StagedContent
staged = record { path = codes "/s"; offset = 0; size = 3; sha256 = 1 ∷ 2 ∷ 3 ∷ [] }

abbrev pub upload_command : SmallUploadCommand
upload_command = record {
  parent_id = 1;
  name = codes "f";
  content_type = codes "t";
  idempotency = idempotency;
  self_destruct = none;
}

abbrev pub complete_command : CompleteMultipartCommand
complete_command = record {
  content_sha256 = [];
  upload_id = 5;
  parts = [];
  idempotency = idempotency;
}

abbrev pub restore_command : RestoreVersionCommand
restore_command = record { entry_id = 7; version_id = 2; idempotency = idempotency }

abbrev pub configure_command : ConfigureStorageCommand
configure_command = record {
  bucket_name = codes "b";
  region = codes "r";
  role_arn = codes "a";
  prefix = [];
  aws_account_id = codes "a";
  encryption = sse_s3;
  kms_key_arn = none;
  idempotency = none;
}

-- A large version in another bucket, whose source has its size but is not served, and a lease that cannot be
-- renewed.
abbrev pub large_restore : RestorePreparation
large_restore = record restore {
  source_target = record bucket { bucket = codes "a" };
  size = 104857601;
}

-- Only the source is there.
abbrev looked : Calls → Result ObjectMetadata ObjectStoreError
looked (object (head target key version) ∷ calls) =
    if str_eq key (codes "old")
    then ok (record metadata { size = 104857601; etag = some (codes "g") })
    else err ObjectStoreError.not_found
looked _ = ok metadata

abbrev pub losing : ContentService
losing = record service {
  objects = record (objects stored) {
    metadata = looked;
    done = λ _. err ObjectStoreError.unavailable;
  };
  repository = record (repository (ok 7)) {
    restore = λ _. ok (acquired large_restore);
    recorded = λ _. err forbidden;
  };
}

-- The timer fires first behind the fifth call of a copy.
abbrev pub late : Calls → ℕ
late calls = if length calls == 5 then 1 else 0
