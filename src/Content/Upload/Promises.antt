-- ===== src/Content/Upload/Promises.antt =====
-- What an upload in a single request promises, whatever its ports answer.
use silicon_briefcase.Prelude.{
  ℕ, ◌≡◌, ◌⊎◌, inl, inr, refl, ◌∙◌, sym, subst, ap, ◌∷◌, Result, ok, err,
}
use silicon_briefcase.Text.{codes}
use silicon_briefcase.Error.{AppError}
use silicon_briefcase.Storage.{StoredObject}
use silicon_briefcase.Content.{
  SmallUploadCommand, StagedContent, SmallUploadPreparation, acquired, replay,
}
use silicon_briefcase.Content.Calls.{
  Calls, Call, commit_small_upload, release_operation, ContentService,
}
use silicon_briefcase.Content.Guard.{
  publication_failure_disposition, preserve_provider_state, compensate_provider_state,
  UnpublishedObjectGuard, release,
}
use silicon_briefcase.Content.Guard.Safety.{
  destructions, MayBePublished, Publication, Publication-kept, settled, taken_back,
  map_object_error-compensates,
}
use silicon_briefcase.Content.Upload.Outcomes.{
  asked, put, SmallUpload, too_large, refused, replayed, not_stored, published,
  upload_small-SmallUpload,
}
use silicon_briefcase.Content.Upload.{release_upload, upload_small}

module _ (service : ContentService) (command : SmallUploadCommand) (staged : StagedContent) where
  SmallUpload-keeps :
      {calls : Calls} {result : Result ℕ AppError} {calls' : Calls}
      → SmallUpload service command staged calls result calls'
      → MayBePublished result
      → destructions calls' ≡ destructions calls
  SmallUpload-keeps (too_large over) kept = refl
  SmallUpload-keeps (refused e fits answer) kept = refl
  SmallUpload-keeps (replayed entry_id fits answer) kept = refl
  SmallUpload-keeps (not_stored p e fits lease put_err) kept =
      let kind = map_object_error-compensates e in absurd (cc)
  SmallUpload-keeps (published p stored fits lease put_ok publication) kept =
      ap destructions (Publication-kept publication kept).0

  -- The last calls of an upload that made an entry.
  abbrev pub Committed : Calls → ℕ → Calls → Type 0
  Committed calls entry_id calls' =
      (p : SmallUploadPreparation) × (stored : StoredObject) × (service.repository.small_upload
          (asked service command staged calls)
        ≡ ok (acquired p))
      × (service.objects.stored (put service command staged calls p) ≡ ok stored)
      × (service.repository.entry
            (commit_small_upload command staged p stored ∷ put service command staged calls p)
          ≡ ok entry_id)
      × (calls' ≡ commit_small_upload command staged p stored ∷ put service command staged calls p)

  SmallUpload-ok :
      {calls : Calls} {result : Result ℕ AppError} {calls' : Calls}
      → SmallUpload service command staged calls result calls'
      → (entry_id : ℕ) → result ≡ ok entry_id
      → (service.repository.small_upload (asked service command staged calls)
          ≡ ok (replay entry_id))
        ⊎ Committed calls entry_id calls'
  SmallUpload-ok (too_large over) entry_id e = absurd (cc)
  SmallUpload-ok (refused _ fits answer) entry_id e = absurd (cc)
  SmallUpload-ok (replayed old fits answer) entry_id e = inl cc
  SmallUpload-ok (not_stored p _ fits lease put_err) entry_id e = absurd (cc)
  SmallUpload-ok (published p stored fits lease put_ok publication) entry_id e =
      let (only, answered) = Publication-kept publication (subst MayBePublished (sym e) tt) in
      inr (p, stored, lease, put_ok, answered ∙ e, only)

  -- What is left of an upload that failed for certain.
  abbrev pub Released : Calls → Calls → Type 0
  Released calls calls' =
      (calls' ≡ calls)
      ⊎ (calls' ≡ asked service command staged calls)
      ⊎ ((before : Calls) × (calls'
            ≡ release_operation (codes "upload_file") command.idempotency ∷ before))

  published-Released :
      {calls : Calls} {guard : UnpublishedObjectGuard} {commit : Call}
      {answer : Calls → Result ℕ AppError} {before : Calls} {result : Result ℕ AppError}
      {calls' : Calls}
      → Publication service guard
          (release_upload service command staged)
          commit
          answer
          before
          result
          calls'
      → (e : AppError) → result ≡ err e
      → publication_failure_disposition e ≡ compensate_provider_state
      → Released calls calls'
  unfolding release_upload release
  published-Released (settled _ _ kept) e failed kind =
      let kept' : publication_failure_disposition e ≡ preserve_provider_state =
        subst MayBePublished failed kept in
      absurd (cc)
  published-Released (taken_back _ _ _) e failed kind = inr (inr (_, refl))

  SmallUpload-err :
      {calls : Calls} {result : Result ℕ AppError} {calls' : Calls}
      → SmallUpload service command staged calls result calls'
      → (e : AppError) → result ≡ err e
      → publication_failure_disposition e ≡ compensate_provider_state
      → Released calls calls'
  SmallUpload-err (too_large over) e failed kind = inl refl
  SmallUpload-err (refused _ fits answer) e failed kind = inr (inl refl)
  SmallUpload-err (replayed old fits answer) e failed kind = inr (inl refl)
  SmallUpload-err (not_stored p _ fits lease put_err) e failed kind = inr (inr (_, refl))
  SmallUpload-err (published p stored fits lease put_ok publication) e failed kind =
      published-Released publication e failed kind

  -- A small upload that succeeds, or whose commit has an unknown outcome, takes nothing away from object
  -- storage: no object is deleted and no session aborted that the published file could need.
  pub upload_small-keeps :
      (calls : Calls)
      → MayBePublished (upload_small service command staged calls).0
      → destructions (upload_small service command staged calls).1 ≡ destructions calls
  upload_small-keeps calls kept =
      SmallUpload-keeps (upload_small-SmallUpload service command staged calls) kept

  -- A small upload that succeeds is the replay of an earlier one, or its last three calls are the
  -- preparation that gave the lease, the put of the staged file, with its size and its digest, to the prepared key, and the commit of the
  -- object that this put stored; the answer of the commit is the result.
  pub upload_small-ok :
      (calls : Calls) (entry_id : ℕ)
      → (upload_small service command staged calls).0 ≡ ok entry_id
      → (service.repository.small_upload (asked service command staged calls)
          ≡ ok (replay entry_id))
        ⊎ Committed calls entry_id (upload_small service command staged calls).1
  upload_small-ok calls entry_id e =
      SmallUpload-ok (upload_small-SmallUpload service command staged calls) entry_id e

  -- A small upload that fails for certain has either made no call of object storage, or released its
  -- lease with its last call, so that a retry with the same key can start again.
  pub upload_small-err :
      (calls : Calls) (e : AppError)
      → (upload_small service command staged calls).0 ≡ err e
      → publication_failure_disposition e ≡ compensate_provider_state
      → Released calls (upload_small service command staged calls).1
  upload_small-err calls e failed kind =
      SmallUpload-err (upload_small-SmallUpload service command staged calls) e failed kind
