-- ===== src/Content/Transfer.antt =====
-- src/application/content.rs: the upload of a staged file, whole or part by part.
pub mod Digest
pub mod Tiling
use silicon_briefcase.Prelude.{
  ℕ, zero, suc, ◌+◌, ◌-◌, ◌*◌, List, [], ◌∷◌, ◌++◌, Result, ok, err, map_err, leb, ◌==◌,
  if◌then◌else◌, length,
}
use silicon_briefcase.Text.{Str, codes, is_empty}
use silicon_briefcase.Error.{AppError}
use silicon_briefcase.Multipart.Plan.{
  MultipartPlan, MultipartPlanError, InvalidPartNumber, UploadStrategy, single_request, multipart,
  strategy_for_file_size, expected_part_size,
}
use silicon_briefcase.Content.{
  UploadCommand, StagedContent, SmallUploadCommand, InitiateMultipartCommand,
  CompleteMultipartCommand, ClientCompletedPart, MultipartReceipt,
}
use silicon_briefcase.Content.Calls.{
  Calls, Action, Call, open_file, seek_file, read_file, ContentService, perform, try, pure,
}
use silicon_briefcase.Content.Guard.{map_plan_error}
use silicon_briefcase.Content.Upload.{upload_small}
use silicon_briefcase.Content.Sessions.{initiate_multipart, upload_one_part}
use silicon_briefcase.Content.Completion.{complete_session}

-- `vec![0_u8; 64 * 1024]`.
abbrev pub buffer_length : ℕ
buffer_length = 64 * 1024

abbrev pub wanted_bytes : ℕ → ℕ
wanted_bytes remaining = if leb remaining buffer_length then remaining else buffer_length

abbrev pub temporary_storage : {A : Type 0} → A → AppError
temporary_storage _ = AppError.internal (codes "temporary_storage")

module _ (service : ContentService) (path : Str) where
  -- A step of the file system, its failure mapped.
  abbrev pub file_step : {A : Type 0} → Call → (Calls → Result A Unit) → Action (Result A AppError)
  file_step call answer calls = (map_err temporary_storage (answer (call ∷ calls)), call ∷ calls)

  -- What a round of the loop does with the bytes it read, before the rounds that are left.
  unfoldable pub after_read :
      (ℕ → ℕ → List ℕ → Action (Result (List ℕ) AppError))
      → ℕ
      → ℕ
      → List ℕ
      → List ℕ
      → Action (Result (List ℕ) AppError)
  after_read rest position remaining digested [] =
      pure (err (AppError.internal (codes "staged_upload_truncated")))
  after_read rest position remaining digested (byte ∷ bytes) =
      rest (position + length (byte ∷ bytes)) (remaining - length (byte ∷ bytes))
        (digested ++ byte ∷ bytes)

  -- The loop. A round reads one byte at least, so that as many rounds as bytes are enough: none remain
  -- when the fuel is spent.
  unfoldable pub read_exactly : ℕ → ℕ → ℕ → List ℕ → Action (Result (List ℕ) AppError)
  read_exactly zero position remaining digested = pure (ok digested)
  read_exactly (suc fuel) position zero digested = pure (ok digested)
  read_exactly (suc fuel) position (suc more) digested =
      try (file_step (read_file path position (wanted_bytes (suc more))) service.files.bytes)
        (after_read (read_exactly fuel) position (suc more) digested)

  abbrev pub digest_sought : ℕ → ℕ → Action (Result (List ℕ) AppError)
  digest_sought offset count =
      try (read_exactly count offset count []) (λ digested. pure (ok (service.sha256 digested)))

  abbrev pub digest_opened : ℕ → ℕ → Action (Result (List ℕ) AppError)
  digest_opened offset count =
      try (file_step (seek_file path offset) service.files.prepared)
        (λ _. digest_sought offset count)

  unfoldable pub sha256_file_range : ℕ → ℕ → Action (Result (List ℕ) AppError)
  sha256_file_range offset count =
      try (file_step (open_file path) service.files.prepared) (λ _. digest_opened offset count)

-- Where a part starts in the staged file.
unfoldable pub part_offset : MultipartPlan → ℕ → ℕ
part_offset plan part_number = (part_number - 1) * plan.part_size

module _ (service : ContentService) (command : UploadCommand) (staged : StagedContent) where
  abbrev pub send_range : ℕ → ℕ → ℕ → ℕ → List ℕ → Action (Result ClientCompletedPart AppError)
  send_range upload_id part_number offset size sha256 =
      try
        (upload_one_part service upload_id part_number
          (record { path = staged.path; offset = offset; size = size; sha256 = sha256 }))
        (λ etag. pure (ok (record { part_number = part_number; etag = etag })))

  -- One round of `upload_multipart`: the part of a number, its digest and its upload.
  unfoldable pub transfer_sized :
      MultipartPlan
      → ℕ
      → ℕ
      → Result ℕ InvalidPartNumber
      → Action (Result ClientCompletedPart AppError)
  transfer_sized plan upload_id part_number (err _) =
      pure (err (AppError.internal (codes "multipart_plan")))
  transfer_sized plan upload_id part_number (ok size) =
      let offset = part_offset plan part_number in
      try (sha256_file_range service staged.path offset size)
        (λ sha256. send_range upload_id part_number offset size sha256)

  unfoldable pub transfer_part :
      MultipartPlan → ℕ → ℕ → Action (Result ClientCompletedPart AppError)
  transfer_part plan upload_id part_number =
      transfer_sized plan upload_id part_number (expected_part_size plan part_number)

  abbrev pub with_others :
      Action (Result (List ClientCompletedPart) AppError)
      → ClientCompletedPart
      → Action (Result (List ClientCompletedPart) AppError)
  with_others others part = try others (λ parts. pure (ok (part ∷ parts)))

  -- The loop over the part numbers, from one on, with how many are left.
  unfoldable pub transfer_parts :
      MultipartPlan → ℕ → ℕ → ℕ → Action (Result (List ClientCompletedPart) AppError)
  transfer_parts plan upload_id part_number zero = pure (ok [])
  transfer_parts plan upload_id part_number (suc left) =
      try (transfer_part plan upload_id part_number)
        (with_others (transfer_parts plan upload_id (part_number + 1) left))

  abbrev pub initiate_command : InitiateMultipartCommand
  initiate_command = record {
    parent_id = command.parent_id;
    name = command.name;
    size = staged.size;
    content_type = command.content_type;
    idempotency = command.idempotency;
    self_destruct = command.self_destruct;
  }

  abbrev pub complete_command :
      MultipartReceipt → List ClientCompletedPart → CompleteMultipartCommand
  complete_command receipt parts = record {
    content_sha256 = staged.sha256;
    upload_id = receipt.upload_id;
    parts = parts;
    idempotency = command.idempotency;
  }

  unfoldable pub upload_multipart : MultipartPlan → Action (Result ℕ AppError)
  upload_multipart plan = try (initiate_multipart service initiate_command) λ receipt.
      try (transfer_parts plan receipt.upload_id 1 plan.part_count)
        λ parts. complete_session service (complete_command receipt parts)

  abbrev pub small_command : SmallUploadCommand
  small_command = record {
    parent_id = command.parent_id;
    name = command.name;
    content_type = command.content_type;
    idempotency = command.idempotency;
    self_destruct = command.self_destruct;
  }

  unfoldable pub upload_by : Result UploadStrategy MultipartPlanError → Action (Result ℕ AppError)
  upload_by (err e) = pure (err (map_plan_error e))
  upload_by (ok single_request) = upload_small service small_command staged
  upload_by (ok (multipart plan)) = upload_multipart plan

  unfoldable pub upload : Action (Result ℕ AppError)
  upload = upload_by (strategy_for_file_size staged.size)
