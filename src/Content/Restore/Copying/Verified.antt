-- ===== src/Content/Restore/Copying/Verified.antt =====
-- What a copy between two targets is, when it succeeds.
use silicon_briefcase.Prelude.{
  ℕ, ◌≡◌, ◌⊎◌, refl, sym, subst, ==→≡, Bool, true, false, some, List, [], Result, ok, err,
  ok-injective, ◌==◌,
}
use silicon_briefcase.Text.{Str, codes}
use silicon_briefcase.Error.{AppError}
use silicon_briefcase.Storage.{
  ObjectChecksum, full_object, composite, StoredObject, StoredPart, ObjectStoreError,
}
use silicon_briefcase.Content.{RestorePreparation}
use silicon_briefcase.Content.Calls.{Calls, ContentService, pure, try}
use silicon_briefcase.Content.Calls.Steps.{try-values}
use silicon_briefcase.Content.Restore.{
  checksum_eq, validate_restore_source, validate_restored_object,
}
use silicon_briefcase.Content.Restore.Integrity.{
  checksum_eq_sound, validate_restored_object_sound, source_checksum_matches_sound,
}
use silicon_briefcase.Multipart.Plan.{MultipartPlan}
use silicon_briefcase.Content.Restore.Copying.Parts.{Moves, transfer_restore_parts-Moved}
use silicon_briefcase.Content.Restore.Copying
use silicon_briefcase.Content.Restore.Copying.Large.{
  complete_or_reconcile, validate_stored, finish_if, finish_restore, full_checksum, parts_checksum,
  finish_with_full, check_sized, check_transferred, transfer_restore_parts,
  transfer_large_restore_parts,
}
use silicon_briefcase.Content.Restore.Copying.{
  check_restored, check_put, put_if, put_copy, digest_copy, read_back, download, verify_copy,
  copy_through, temporary_file, copy_small_between_targets,
}

module _ (service : ContentService) (p : RestorePreparation) where
  -- An object at the reserved key, with the size of the version and a checksum.
  abbrev pub IsCopy : ObjectChecksum → StoredObject → Type 0
  IsCopy expected stored =
      (stored.key ≡ p.destination_key) × (stored.size ≡ p.size) × (stored.checksum ≡ some expected)

  check_restored-IsCopy :
      (expected : ObjectChecksum) (put stored : StoredObject) (valid : Result Unit AppError)
      (calls : Calls)
      → validate_restored_object put p expected ≡ valid
      → (check_restored service p put valid calls).0 ≡ ok stored
      → IsCopy expected stored
  unfolding check_restored
  check_restored-IsCopy expected put stored (ok tt) calls valid e =
      subst (IsCopy expected) (ok-injective e) (validate_restored_object_sound put p expected valid)
  check_restored-IsCopy expected put stored (err _) calls valid e = absurd (cc)

  check_put-IsCopy :
      (expected : ObjectChecksum) (stored : StoredObject)
      (result : Result StoredObject ObjectStoreError) (calls : Calls)
      → (check_put service p expected result calls).0 ≡ ok stored
      → IsCopy expected stored
  unfolding check_put
  check_put-IsCopy expected stored (ok put) calls e =
      check_restored-IsCopy expected put stored _ calls refl e
  check_put-IsCopy expected stored (err _) calls e = absurd (cc)

  put_if-IsCopy :
      (path : Str) (digest : List ℕ) (expected : ObjectChecksum) (stored : StoredObject)
      (same : Bool) (calls : Calls)
      → checksum_eq p.checksum expected ≡ same
      → (put_if service p path digest expected same calls).0 ≡ ok stored
      → IsCopy p.checksum stored
  unfolding put_if
  put_if-IsCopy path digest expected stored false calls same e = absurd (cc)
  put_if-IsCopy path digest expected stored true calls same e =
      subst (λ c. IsCopy c stored) (sym (checksum_eq_sound p.checksum expected same))
        (check_put-IsCopy expected stored _ _ e)

  -- A small copy between two targets that succeeds is at the reserved key and has exactly the size and the
  -- checksum that are on record for the version.
  pub copy_small_between_targets-IsCopy :
      (stored : StoredObject) (calls : Calls)
      → (copy_small_between_targets service p calls).0 ≡ ok stored
      → IsCopy p.checksum stored
  unfolding copy_small_between_targets copy_through verify_copy digest_copy put_copy
  copy_small_between_targets-IsCopy stored calls e =
      let (path, _, e1) =
        try-values (temporary_file service p (codes "briefcase-restore-")) (copy_through service p)
          calls e in
      let (metadata, _, e2) =
        try-values (download service p path) (verify_copy service p path) _ e1 in
      let (_, _, e3) =
        try-values (pure (validate_restore_source metadata p))
          (λ _. try (read_back service p path) (digest_copy service p path)) _ e2 in
      let (contents, _, e4) =
        try-values (read_back service p path) (digest_copy service p path) _ e3 in
      let (expected, _, e5) =
        try-values (pure (Copying.full_checksum service p (service.sha256 contents)))
          (put_copy service p path (service.sha256 contents)) _ e4 in
      put_if-IsCopy path (service.sha256 contents) expected stored _ _ refl e5

  module _ (source_etag upload_id : Str) where
    validate_stored-IsCopy :
        (expected : ObjectChecksum) (put stored : StoredObject) (calls : Calls)
        → (validate_stored service p source_etag upload_id expected put calls).0 ≡ ok stored
        → IsCopy expected stored
    unfolding validate_stored
    validate_stored-IsCopy expected put stored calls e =
        let (_, valid, same) =
          try-values (pure (validate_restored_object put p expected)) (λ _. pure (ok put)) calls
            e in
        subst (IsCopy expected) (ok-injective same)
          (validate_restored_object_sound put p expected valid)

    finish_if-IsCopy :
        (parts : List StoredPart) (expected : ObjectChecksum) (stored : StoredObject) (same : Bool)
        (calls : Calls)
        → (finish_if service p source_etag upload_id parts expected same calls).0 ≡ ok stored
        → (same ≡ true) × IsCopy expected stored
    unfolding finish_if
    finish_if-IsCopy parts expected stored false calls e = absurd (cc)
    finish_if-IsCopy parts expected stored true calls e =
        let (put, _, checked) =
          try-values (complete_or_reconcile service p source_etag upload_id parts expected)
            (validate_stored service p source_etag upload_id expected) calls e in
        (refl, validate_stored-IsCopy expected put stored _ checked)

    -- The bytes and the parts have the checksum of the version, and the copy is made of those parts.
    abbrev pub IsTransferred : StoredObject → List StoredPart → List ℕ → Type 0
    IsTransferred stored parts bytes =
        (full : ObjectChecksum) × (expected : ObjectChecksum) × (full_checksum service p source_etag
            upload_id bytes
          ≡ ok full)
        × (parts_checksum service p source_etag upload_id parts ≡ ok expected)
        × (((p.checksum.checksum_type ≡ full_object) × (p.checksum ≡ full))
            ⊎ ((p.checksum.checksum_type ≡ composite) × (p.checksum ≡ expected)))
        × IsCopy expected stored

    check_sized-IsTransferred :
        (parts : List StoredPart) (offset : ℕ) (digested : List ℕ) (stored : StoredObject)
        (sized : Bool) (calls : Calls)
        → (offset == p.size) ≡ sized
        → (check_sized service p source_etag upload_id parts digested sized calls).0 ≡ ok stored
        → (offset ≡ p.size) × IsTransferred stored parts digested
    unfolding check_sized finish_with_full finish_restore
    check_sized-IsTransferred parts offset digested stored false calls sized e = absurd (cc)
    check_sized-IsTransferred parts offset digested stored true calls sized e =
        let (full, whole, e1) =
          try-values (pure (full_checksum service p source_etag upload_id digested))
            (finish_with_full service p source_etag upload_id parts) calls e in
        let (expected, composed, e2) =
          try-values (pure (parts_checksum service p source_etag upload_id parts))
            (finish_restore service p source_etag upload_id parts full) _ e1 in
        let (same, copied) = finish_if-IsCopy parts expected stored _ _ e2 in
        (
          ==→≡ offset p.size sized,
          (
            full,
            expected,
            whole,
            composed,
            source_checksum_matches_sound p.checksum full expected same,
            copied,
          ),
        )

    -- A large copy that succeeds moved as many parts as its plan counts, numbered in order from one: of each it fetched
    -- the range of the source that starts where the one before it ends and has the size that the plan gives it, and uploaded
    -- the bytes it read with their digest. The ranges end at the size of the version; the checksum on record
    -- is that of all these bytes together, or the one composed of the digests of the parts, by its type; and the copy
    -- is at the reserved key with that size and the composed checksum.
    pub transfer_large_restore_parts-IsTransferred :
        (plan : MultipartPlan) (stored : StoredObject) (calls : Calls)
        → (transfer_large_restore_parts service p source_etag upload_id plan calls).0 ≡ ok stored
        → (parts : List StoredPart) × (bytes : List ℕ) × Moves service p source_etag upload_id plan
            1 plan.part_count 0 calls parts bytes p.size
          × IsTransferred stored parts bytes
    unfolding transfer_large_restore_parts check_transferred
    transfer_large_restore_parts-IsTransferred plan stored calls e =
        let (transferred, moved, checked) =
          try-values
            (transfer_restore_parts service p source_etag upload_id plan 1 plan.part_count 0 [])
            (check_transferred service p source_etag upload_id) calls e in
        let (bytes, moves, all) =
          transfer_restore_parts-Moved service p source_etag upload_id plan 1 plan.part_count 0 []
            calls transferred moved in
        let (sized, copied) = check_sized-IsTransferred _ _ _ stored _ _ refl checked in
        (
          transferred.0,
          bytes,
          subst
              (Moves service p source_etag upload_id plan 1 plan.part_count 0 calls transferred.0
                bytes)
              sized moves,
          subst (IsTransferred stored transferred.0) all copied,
        )
