-- ===== src/Content/Completion/Promises.antt =====
-- What the completion of a multipart session promises.
use silicon_briefcase.Prelude.{
  ℕ, ◌≡◌, ◌∙◌, ◌⊎◌, inl, inr, refl, sym, subst, ap, true, Option, none, some, ◌∷◌, map, length,
  Result, ok, err, map_err-ok, arith,
}
use silicon_briefcase.Text.{decimal, ends_with}
use silicon_briefcase.Storage.{
  ObjectChecksum, ObjectChecksumType, full_object, composite, StoredObject, ObjectMetadata,
  ObjectStoreError,
}
use silicon_briefcase.Multipart.Completion.{CompletionValidationError, validate_completion}
use silicon_briefcase.Content.{
  CompleteMultipartCommand, MultipartCompletionPreparation, Prepared, acquired, replay,
}
use silicon_briefcase.Content.Calls.{
  Calls, object, head, complete_multipart, prepare_multipart_completion,
  commit_multipart_completion, ContentService, perform, pure,
}
use silicon_briefcase.Content.Calls.Steps.{try-ok, try-keeps}
use silicon_briefcase.Content.Guard.{map_object_error, provider}
use silicon_briefcase.Content.Guard.Safety.{destructions, MayBePublished, publish-kept, publish-ok}
use silicon_briefcase.Content.Completion.{
  is_composite, stored_part, reconcile_metadata, reconcile_completed_multipart, publish_completion,
  assembled_or_found, look_at_key, assemble, complete_validated, complete_prepared,
  complete_session,
}

module _ (service : ContentService) (p : MultipartCompletionPreparation) (calls : Calls) where
  -- The histories after the provider was told to assemble the parts, and after a look at the key.
  abbrev pub completed : Calls
  completed =
      object (
        complete_multipart p.target p.key p.provider_upload_id (map stored_part p.parts)
          p.plan.file_size)
      ∷ calls

  abbrev pub looked : Calls
  looked = object (head p.target p.key none) ∷ completed

  -- A checksum composed of as many parts as were prepared.
  abbrev pub HasPartCount : Option ObjectChecksum → Type 0
  HasPartCount none = ⊥
  HasPartCount (some checksum) =
      (checksum.checksum_type ≡ composite)
      × (ends_with (b'-' ∷ decimal (length p.parts)) checksum.encoded_value ≡ true)

  -- The provider confirmed the object, or a look at the key found one of the planned size, with a checksum
  -- composed of as many parts as were prepared.
  abbrev pub Assembled : StoredObject → Calls → Type 0
  Assembled stored calls' =
      ((service.objects.stored completed ≡ ok stored) × (calls' ≡ completed))
      ⊎ ((metadata : ObjectMetadata) × (service.objects.metadata looked ≡ ok metadata)
          × (reconcile_metadata p (length p.parts) metadata ≡ ok stored)
          × HasPartCount metadata.checksum
          × (metadata.size ≡ p.plan.file_size)
          × (stored.size ≡ p.plan.file_size)
          × (calls' ≡ looked))

  reconcile_metadata-size :
      (n : ℕ) (metadata : ObjectMetadata) (stored : StoredObject)
      → reconcile_metadata p n metadata ≡ ok stored
      → (metadata.size ≡ p.plan.file_size) × (stored.size ≡ p.plan.file_size)
  unfolding reconcile_metadata
  reconcile_metadata-size n metadata stored e = ground arith

  composite_of_test : (kind : ObjectChecksumType) → is_composite kind ≡ true → kind ≡ composite
  composite_of_test full_object e = absurd (cc)
  composite_of_test composite e = refl

  counted_checksum :
      (checksum : Option ObjectChecksum) (metadata : ObjectMetadata) (stored : StoredObject)
      → metadata.checksum ≡ checksum
      → reconcile_metadata p (length p.parts) metadata ≡ ok stored
      → HasPartCount checksum
  unfolding reconcile_metadata
  counted_checksum none metadata stored has e = absurd (ground arith)
  counted_checksum (some checksum) metadata stored has e =
      (composite_of_test checksum.checksum_type (ground arith), ground arith)

  found-Assembled :
      (stored : StoredObject)
      → (reconcile_completed_multipart service p (length p.parts) completed).0 ≡ ok stored
      → Assembled stored (reconcile_completed_multipart service p (length p.parts) completed).1
  unfolding reconcile_completed_multipart provider
  found-Assembled stored e =
      let (metadata, found, run) =
        try-ok (look_at_key service p)
          (λ metadata. pure (reconcile_metadata p (length p.parts) metadata)) completed e in
      let reconciled : reconcile_metadata p (length p.parts) metadata ≡ ok stored =
        sym (ap (λ r. r.0) run) ∙ e in
      let (size, size') = reconcile_metadata-size _ metadata stored reconciled in
      inr (
        metadata,
        map_err-ok map_object_error _ found,
        reconciled,
        counted_checksum _ metadata stored refl reconciled,
        size,
        size',
        ap (λ r. r.1) run,
      )

  assembled_or_found-Assembled :
      (stored : StoredObject) (result : Result StoredObject ObjectStoreError)
      → service.objects.stored completed ≡ result
      → (assembled_or_found service p result completed).0 ≡ ok stored
      → Assembled stored (assembled_or_found service p result completed).1
  unfolding assembled_or_found
  assembled_or_found-Assembled stored (ok _) done e = inl (cc, refl)
  assembled_or_found-Assembled stored (err failure) done e =
      found-Assembled stored (map_err-ok (λ _. map_object_error failure) _ e)

  assemble-Assembled :
      (stored : StoredObject)
      → (assemble service p calls).0 ≡ ok stored
      → Assembled stored (assemble service p calls).1
  unfolding assemble
  assemble-Assembled stored e = assembled_or_found-Assembled stored _ refl e

  -- The provider is told at most to assemble, and looked at.
  assembled_or_found-destructions :
      (result : Result StoredObject ObjectStoreError)
      → destructions (assembled_or_found service p result completed).1 ≡ destructions calls
  unfolding assembled_or_found reconcile_completed_multipart provider
  assembled_or_found-destructions (ok _) = refl
  assembled_or_found-destructions (err _) =
      try-keeps (look_at_key service p)
        (λ metadata. pure (reconcile_metadata p (length p.parts) metadata)) completed (λ _. Unit)
        (λ cs. destructions cs ≡ destructions calls) refl (λ _ _ _. refl) tt

module _ (service : ContentService) (command : CompleteMultipartCommand) (calls : Calls) where
  abbrev pub asked : Calls
  asked = prepare_multipart_completion command ∷ calls

  -- The parts were checked against the plan, assembled and committed.
  abbrev pub Completed : ℕ → Calls → Type 0
  Completed entry_id calls' =
      (p : MultipartCompletionPreparation) × (stored : StoredObject) × (before : Calls)
      × (service.repository.completion asked ≡ ok (acquired p))
      × (validate_completion p.plan p.parts ≡ ok tt)
      × Assembled service p asked stored before
      × (service.repository.entry (commit_multipart_completion command p stored ∷ before)
          ≡ ok entry_id)
      × (calls' ≡ commit_multipart_completion command p stored ∷ before)

  validated-Completed :
      (p : MultipartCompletionPreparation) (entry_id : ℕ)
      (valid : Result Unit CompletionValidationError)
      → service.repository.completion asked ≡ ok (acquired p)
      → validate_completion p.plan p.parts ≡ valid
      → (complete_validated service command p valid asked).0 ≡ ok entry_id
      → Completed entry_id (complete_validated service command p valid asked).1
  unfolding complete_validated publish_completion
  validated-Completed p entry_id (err _) lease valid e = absurd (cc)
  validated-Completed p entry_id (ok tt) lease valid e =
      let (stored, assembled, run) =
        try-ok (assemble service p) (publish_completion service command p) asked e in
      let done : (publish_completion service command p stored (assemble service p asked).1).0
          ≡ ok entry_id =
        sym (ap (λ r. r.0) run) ∙ e in
      let (only, answered) = publish-ok service _ _ _ _ _ done in
      (
        p,
        stored,
        _,
        lease,
        valid,
        assemble-Assembled service p asked stored assembled,
        answered,
        ap (λ r. r.1) run ∙ only,
      )

  prepared-Completed :
      (prepared : Prepared MultipartCompletionPreparation ℕ) (entry_id : ℕ)
      → service.repository.completion asked ≡ ok prepared
      → (complete_prepared service command prepared asked).0 ≡ ok entry_id
      → (service.repository.completion asked ≡ ok (replay entry_id))
        ⊎ Completed entry_id (complete_prepared service command prepared asked).1
  unfolding complete_prepared
  prepared-Completed (replay old) entry_id lease e = inl cc
  prepared-Completed (acquired p) entry_id lease e =
      inr (validated-Completed p entry_id _ lease refl e)

  -- A completion that succeeds is the replay of an earlier one, or: the recorded parts were checked
  -- against the plan; the provider confirmed the assembled object, or a look at the key found one of the
  -- planned size with a checksum of as many parts; and the last call commits that object and answers the result.
  pub complete_session-ok :
      (entry_id : ℕ)
      → (complete_session service command calls).0 ≡ ok entry_id
      → (service.repository.completion asked ≡ ok (replay entry_id))
        ⊎ Completed entry_id (complete_session service command calls).1
  unfolding complete_session
  complete_session-ok entry_id e =
      let (prepared, lease, run) =
        try-ok (perform (prepare_multipart_completion command) service.repository.completion)
          (complete_prepared service command) calls e in
      subst
        (λ r. (service.repository.completion asked ≡ ok (replay entry_id)) ⊎ Completed entry_id r.1)
        (sym run) (prepared-Completed prepared entry_id lease (sym (ap (λ r. r.0) run) ∙ e))

  validated-keeps :
      (p : MultipartCompletionPreparation) (valid : Result Unit CompletionValidationError)
      → MayBePublished (complete_validated service command p valid asked).0
      → destructions (complete_validated service command p valid asked).1 ≡ destructions calls
  unfolding complete_validated publish_completion assemble
  validated-keeps p (err _) kept = refl
  validated-keeps p (ok _) kept =
      try-keeps (assemble service p) (publish_completion service command p) asked MayBePublished
        (λ cs. destructions cs ≡ destructions calls)
        (assembled_or_found-destructions service p asked _)
        (λ stored _ kept'.
          ap destructions (publish-kept service _ _ _ _ _ kept').0
          ∙ assembled_or_found-destructions service p asked _)
        kept

  prepared-keeps :
      (prepared : Prepared MultipartCompletionPreparation ℕ)
      → MayBePublished (complete_prepared service command prepared asked).0
      → destructions (complete_prepared service command prepared asked).1 ≡ destructions calls
  unfolding complete_prepared
  prepared-keeps (replay old) kept = refl
  prepared-keeps (acquired p) kept = validated-keeps p _ kept

  -- A completion that succeeds, or whose commit has an unknown outcome, takes nothing away from object
  -- storage.
  pub complete_session-keeps :
      MayBePublished (complete_session service command calls).0
      → destructions (complete_session service command calls).1 ≡ destructions calls
  unfolding complete_session
  complete_session-keeps kept =
      try-keeps (perform (prepare_multipart_completion command) service.repository.completion)
        (complete_prepared service command) calls MayBePublished
        (λ cs. destructions cs ≡ destructions calls) refl
        (λ prepared _ kept'. prepared-keeps prepared kept') kept
