-- ===== src/Content/Examples.antt =====
-- Uploads, completions, reads and restores of three bytes (src/application/content.rs).
use silicon_briefcase.Prelude.{
  ℕ, ◌+◌, ◌≤◌, ◌<◌, ◌≡◌, ◌⊎◌, refl, none, some, List, [], ◌∷◌, take, drop, ok, arith,
}
use silicon_briefcase.Text.{
  parse_digits, decimal_onto, parse_below, parse_u32, decimal, rsplit_once, codes, str_eq,
}
use silicon_briefcase.Error.{forbidden}
use silicon_briefcase.Storage.{
  valid_sha256_base64, StoredPart, from, object_checksum, valid_checksum,
}
use silicon_briefcase.Multipart.Plan.{
  MultipartPlan, expected_part_size, checked_ceil_div, plan_for_file_size, plan_with_part_size,
  planned_part_size,
}
use silicon_briefcase.Multipart.Plan.Bounds.{IsExact}
use silicon_briefcase.Content.{render, replay}
use silicon_briefcase.Content.Fixtures.{
  losing, late, bucket, stored, digest, opened, one_part_plan, restore, service, refusing,
  assembling, assembled, download_target, reading, staged, upload_command, complete_command,
  restore_command, slow_files,
}
use silicon_briefcase.Content.Versions
use silicon_briefcase.Content.Upload
use silicon_briefcase.Content.Guard.Safety.{destructions}
use silicon_briefcase.Content.Upload.{upload_small}
use silicon_briefcase.Content.Upload.Outcomes.{SmallUpload, upload_small-SmallUpload}
use silicon_briefcase.Content.Upload.Promises.{Released, upload_small-keeps, upload_small-err}
use silicon_briefcase.Content.Sessions.{
  upload_one_part, send_part, send_sized, send_if, record_part, part_recorded,
}
use silicon_briefcase.Content.Sessions.Promises.{Accepted, upload_one_part-ok}
use silicon_briefcase.Content.Completion.{
  complete_session, complete_prepared, complete_validated, assemble, assembled_or_found,
  publish_completion,
}
use silicon_briefcase.Content.Completion.Promises.{
  asked, Completed, complete_session-ok, complete_session-keeps,
}
use silicon_briefcase.Content.Reading.{
  delivered, open_content, resolve_request, open_target, deliver,
}
use silicon_briefcase.Content.Reading.Promises.{Delivered, open_content-ok}
use silicon_briefcase.Content.Versions.{restore_version}
use silicon_briefcase.Content.Versions.Renewal.{
  await_copy, renew, awaiting, waited, whole, session_guard, guard_in_flight, opened_session,
  drop_copy,
}
use silicon_briefcase.Content.Range.{resolve_range, anchored}
use silicon_briefcase.Content.Calls.{object, head, abort_multipart, release_operation}
use silicon_briefcase.Content.Versions.Promises.{Restored, restore_version-ok}
use silicon_briefcase.Content.Transfer.{part_offset, sha256_file_range}
use silicon_briefcase.Content.Transfer.Digest.{Serves, sha256_file_range_lem}
use silicon_briefcase.Content.Transfer.Tiling.{part_offset-tiles}
use silicon_briefcase.Content.Restore.Copying.{
  copy_small_between_targets, reconcile_reserved_restore_destination, reconcile_found,
  keep_or_delete, is_restored, copy_through, verify_copy, digest_copy, put_copy, put_if, check_put,
  check_restored,
}
use silicon_briefcase.Content.Restore.Copying.Large.{
  transfer_restore_part, upload_read, check_transferred, check_sized, finish_with_full,
  complete_or_reconcile, completed_or_found, finish_if, finish_restore, reconcile_completion,
  validate_stored, transfer_restore_parts, transfer_large_restore_parts, copy_large_between_targets,
  guard_transfer, transfer_guarded,
}
use silicon_briefcase.Content.Restore.Copying.Parts.{Moves}
use silicon_briefcase.Content.Restore.Copying.Verified.{
  IsCopy, IsTransferred, copy_small_between_targets-IsCopy,
  transfer_large_restore_parts-IsTransferred,
}
use Upload.{upload_prepared, put_small, publish_small}
use silicon_briefcase.Content.Guard.{
  map_object_error, publish, settle, leave, publication_failure_disposition, compensate, provider,
  abort_unpublished, cleanup_now, cleanup_unpublished_object, delete_discovered, delete_unpublished,
  disarm, drop_guard, guard_destination, guard_multipart, release,
}
use silicon_briefcase.Multipart.Completion.{validate_completion, check_parts, check_part}
use Versions.{
  restore_prepared, publish_restored, copy_version_for_restore, copy_unless_found,
  copy_between_targets, copy_from_source, release_restore,
}
use silicon_briefcase.Content.Restore.{
  source_checksum_matches, part_digests, composite_checksum, validate_restore_source,
  full_object_checksum, validate_restored_object,
}

upload_small-SmallUpload_example :
    SmallUpload service upload_command staged []
      (upload_small service upload_command staged []).0
      (upload_small service upload_command staged []).1
upload_small-SmallUpload_example = upload_small-SmallUpload service upload_command staged []

upload_small-keeps_example : destructions (upload_small service upload_command staged []).1 ≡ 0
unfolding upload_small upload_prepared put_small publish_small publish settle leave
upload_small-keeps_example = upload_small-keeps service upload_command staged [] tt

-- A refused commit deletes the version that was put, and gives the lease back.
upload_small-err_example :
    Released refusing upload_command staged [] (upload_small refusing upload_command staged []).1
unfolding upload_small upload_prepared put_small publish_small publish settle
    publication_failure_disposition compensate leave
upload_small-err_example = upload_small-err refusing upload_command staged [] forbidden refl refl

upload_one_part-ok_example :
    Accepted service 5 1 staged [] (codes "e") (upload_one_part service 5 1 staged []).1
unfolding upload_one_part send_part send_sized expected_part_size send_if provider record_part
    part_recorded
upload_one_part-ok_example = upload_one_part-ok service 5 1 staged [] (codes "e") refl

complete_session-ok_example :
    (service.repository.completion (asked service complete_command []) ≡ ok (replay 7))
    ⊎ Completed service complete_command [] 7 (complete_session service complete_command []).1
unfolding complete_session complete_prepared complete_validated validate_completion check_parts
    check_part expected_part_size assemble assembled_or_found publish_completion publish settle
    leave
complete_session-ok_example = complete_session-ok service complete_command [] 7 refl

complete_session-keeps_example : destructions (complete_session service complete_command []).1 ≡ 0
unfolding complete_session complete_prepared complete_validated validate_completion check_parts
    check_part expected_part_size assemble assembled_or_found publish_completion publish settle
    leave
complete_session-keeps_example = complete_session-keeps service complete_command [] tt

open_content-ok_example :
    Delivered service 7 render
      (some (from 1))
      []
      (delivered download_target opened)
      (open_content service 7 render (some (from 1)) []).1
unfolding open_content resolve_request resolve_range anchored open_target provider deliver
open_content-ok_example =
    open_content-ok service 7 render (some (from 1)) [] (delivered download_target opened) refl

-- The lease is renewed once behind every call of the copy.
restore_version-ok_example :
    (service.repository.restore (Versions.Outcomes.asked service restore_command (λ _. 1) [])
      ≡ ok (replay 7))
    ⊎ Restored service restore_command
        (λ _. 1)
        []
        7
        (restore_version service restore_command (λ _. 1) []).1
unfolding restore_version restore_prepared publish_restored await_copy copy_version_for_restore
    reconcile_reserved_restore_destination reconcile_found keep_or_delete is_restored str_eq
    copy_unless_found publish settle leave waited awaiting renew
restore_version-ok_example = restore_version-ok service restore_command (λ _. 1) [] 7 refl

dropped_test :
    take 4 (restore_version losing restore_command late []).1
    ≡ object (head bucket (codes "k") none)
      ∷ object (abort_multipart bucket (codes "k") (codes "e"))
      ∷ release_operation (codes "restore_version") restore_command.idempotency
      ∷ object (head bucket (codes "k") none)
      ∷ []
unfolding restore_version restore_prepared publish_restored await_copy copy_version_for_restore
    reconcile_reserved_restore_destination reconcile_found str_eq copy_unless_found copy_from_source
    copy_between_targets plan_for_file_size planned_part_size checked_ceil_div plan_with_part_size
    copy_large_between_targets provider validate_restore_source transfer_guarded guard_transfer
    transfer_large_restore_parts transfer_restore_parts expected_part_size transfer_restore_part
    waited awaiting renew whole compensate leave cleanup_now guard_destination guard_multipart
    disarm drop_guard publication_failure_disposition map_object_error cleanup_unpublished_object
    abort_unpublished delete_unpublished delete_discovered release release_restore drop_copy
    guard_in_flight session_guard opened_session
dropped_test = refl

slow-Serves : Serves slow_files (codes "/s") (1 ∷ 2 ∷ 3 ∷ [])
slow-Serves = record {
  opens = λ _. refl;
  seeks = λ _ _. refl;
  reads = λ position wanted calls some inside. (1, omega arith, some, omega arith, refl);
}

sha256_file_range_lem_example :
    (sha256_file_range reading (codes "/s") 1 2 []).0 ≡ ok (take 2 (drop 1 (1 ∷ 2 ∷ 3 ∷ [])))
sha256_file_range_lem_example =
    sha256_file_range_lem reading (codes "/s") (1 ∷ 2 ∷ 3 ∷ []) slow-Serves 1 2 [] (omega arith)

abbrev large_plan : MultipartPlan
large_plan = record { file_size = 104857601; part_size = 8388608; part_count = 13 }

large_plan-IsExact : IsExact large_plan
large_plan-IsExact = record {
  smallest = omega arith;
  largest = omega arith;
  in_range = omega arith;
  counted = omega arith;
  few = omega arith;
  not_short = omega arith;
  not_long = omega arith;
}

part_offset-tiles_example :
    (part_offset large_plan 1 ≡ 0)
    × ((size : ℕ) × (expected_part_size large_plan 13 ≡ ok size)
        × (1 ≤ size)
        × (((13 < large_plan.part_count)
              × (part_offset large_plan 13 + size ≡ part_offset large_plan (13 + 1)))
            ⊎ ((large_plan.part_count ≡ large_plan.part_count)
                × (part_offset large_plan 13 + size ≡ 104857601))))
part_offset-tiles_example =
    part_offset-tiles large_plan large_plan-IsExact 13 (omega arith) (omega arith)

copy_small_between_targets-IsCopy_example : IsCopy service restore digest stored
unfolding copy_small_between_targets copy_through provider verify_copy validate_restore_source
    str_eq digest_copy full_object_checksum object_checksum valid_checksum put_copy put_if check_put
    check_restored validate_restored_object
copy_small_between_targets-IsCopy_example =
    copy_small_between_targets-IsCopy service restore stored [] refl

assembled_test :
    (transfer_large_restore_parts assembling restore (codes "g") (codes "u") one_part_plan []).0
    ≡ ok assembled
unfolding transfer_large_restore_parts transfer_restore_parts expected_part_size
    transfer_restore_part provider upload_read check_transferred check_sized full_object_checksum
    object_checksum valid_checksum finish_with_full composite_checksum rsplit_once decimal parse_u32
    parse_below map_object_error complete_or_reconcile completed_or_found finish_if finish_restore
    reconcile_completion validate_stored part_digests source_checksum_matches
    validate_restored_object valid_sha256_base64 decimal_onto parse_digits str_eq
assembled_test = refl

transfer_large_restore_parts-IsTransferred_example :
    (parts : List StoredPart) × (bytes : List ℕ) × Moves assembling restore
      (codes "g")
      (codes "u")
      one_part_plan
      1
      1
      0
      []
      parts
      bytes
      3
    × IsTransferred assembling restore (codes "g") (codes "u") assembled parts bytes
transfer_large_restore_parts-IsTransferred_example =
    transfer_large_restore_parts-IsTransferred assembling restore (codes "g") (codes "u")
      one_part_plan assembled [] assembled_test
