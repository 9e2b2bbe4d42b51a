-- ===== src/Content/Upload/Outcomes.antt =====
-- How an upload in a single request can end.
use silicon_briefcase.Prelude.{
  ℕ, ◌≡◌, ◌<◌, ◌≤◌, arith, refl, sym, subst, Option, none, ◌∷◌, Result, ok, err, lt→ltb, ge→ltb,
}
use native.Mathlib.Decide.{dec_lt}
use silicon_briefcase.Text.{Str, codes}
use silicon_briefcase.Error.{AppError, payload_too_large}
use silicon_briefcase.Storage.{StoredObject, ObjectStoreError}
use silicon_briefcase.Multipart.Plan.{single_upload_max_bytes}
use silicon_briefcase.Content.{
  SmallUploadCommand, StagedContent, SmallUploadPreparation, Prepared, acquired, replay,
}
use silicon_briefcase.Content.Calls.{
  Calls, Call, object, put_file, prepare_small_upload, commit_small_upload, release_operation,
  ContentService, try,
}
use silicon_briefcase.Content.Guard.{
  map_object_error, cleanup_unpublished_object, guard_destination, record_stored_object, release,
}
use silicon_briefcase.Content.Guard.Safety.{Publication, publish-Publication, compensate_lem}
use silicon_briefcase.Content.Upload.{
  release_upload, publish_small, put_small, upload_prepared, upload_small,
}

module _ (service : ContentService) (command : SmallUploadCommand) (staged : StagedContent) where
  module _ (calls : Calls) where
    -- The histories on the way to a publication.
    abbrev pub asked : Calls
    asked = prepare_small_upload command staged ∷ calls

    abbrev pub put_call : SmallUploadPreparation → Call
    put_call p =
        object (put_file p.target p.key staged.path command.content_type staged.size staged.sha256)

    abbrev pub put : SmallUploadPreparation → Calls
    put p = put_call p ∷ asked

    -- The cleanup of the prepared object, and the release of the lease.
    abbrev pub given_back : SmallUploadPreparation → Option Str → Calls → Calls
    given_back p version before =
        release_operation (codes "upload_file") command.idempotency
        ∷ cleanup_unpublished_object service p.target p.key none version before

    pub data SmallUpload : Result ℕ AppError → Calls → Type 0 where
      too_large : single_upload_max_bytes < staged.size → SmallUpload (err payload_too_large) calls
      refused :
          (e : AppError)
          → staged.size ≤ single_upload_max_bytes
          → service.repository.small_upload asked ≡ err e
          → SmallUpload (err e) asked
      replayed :
          (entry_id : ℕ)
          → staged.size ≤ single_upload_max_bytes
          → service.repository.small_upload asked ≡ ok (replay entry_id)
          → SmallUpload (ok entry_id) asked
      not_stored :
          (p : SmallUploadPreparation) (e : ObjectStoreError)
          → staged.size ≤ single_upload_max_bytes
          → service.repository.small_upload asked ≡ ok (acquired p)
          → service.objects.stored (put p) ≡ err e
          → SmallUpload (err (map_object_error e)) (given_back p none (put p))
      published :
          (p : SmallUploadPreparation) (stored : StoredObject) {result : Result ℕ AppError}
          {calls' : Calls}
          → staged.size ≤ single_upload_max_bytes
          → service.repository.small_upload asked ≡ ok (acquired p)
          → service.objects.stored (put p) ≡ ok stored
          → Publication service
              (record_stored_object (guard_destination p.target p.key) stored)
              (release_upload service command staged)
              (commit_small_upload command staged p stored)
              service.repository.entry
              (put p)
              result
              calls'
          → SmallUpload result calls'

    -- A run with its result and history.
    abbrev Ends : Result ℕ AppError × Calls → Type 0
    Ends run = SmallUpload run.0 run.1

    module _ (fits : staged.size ≤ single_upload_max_bytes) (p : SmallUploadPreparation)
        (lease : service.repository.small_upload asked ≡ ok (acquired p)) where
      publish-Ends :
          (result : Result StoredObject ObjectStoreError)
          → service.objects.stored (put p) ≡ result
          → Ends (
              publish_small service command staged p
                (guard_destination p.target p.key)
                result
                (put p))
      unfolding publish_small guard_destination release_upload release
      publish-Ends (ok stored) put_ok =
          published p stored fits lease put_ok (publish-Publication service _ _ _ _ _)
      publish-Ends (err e) put_err =
          subst Ends (sym (compensate_lem service _ _ _ _)) (not_stored p e fits lease put_err)

    prepared-Ends :
        staged.size ≤ single_upload_max_bytes
        → (prepared : Result (Prepared SmallUploadPreparation ℕ) AppError)
        → service.repository.small_upload asked ≡ prepared
        → Ends (try (λ _. (prepared, asked)) (upload_prepared service command staged) calls)
    unfolding upload_prepared put_small
    prepared-Ends fits (err e) answer = refused e fits answer
    prepared-Ends fits (ok (replay entry_id)) answer = replayed entry_id fits answer
    prepared-Ends fits (ok (acquired p)) answer = publish-Ends fits p answer _ refl

    -- Every run of the upload ends in one of five ways: nothing is called for a file that is too large, and the
    -- other four are runs of a file that is not; a refusal and a replay call nothing but the preparation; an object that is not stored is cleaned up and
    -- the lease released; and an object that is stored with the staged size and digest is published, which
    -- keeps it when it may be published and otherwise cleans it up and releases the lease.
    pub upload_small-SmallUpload :
        SmallUpload
          (upload_small service command staged calls).0
          (upload_small service command staged calls).1
    unfolding upload_small
    upload_small-SmallUpload = elim (dec_lt single_upload_max_bytes staged.size) [
      | yes over ↦ rw (lt→ltb _ _ over) (too_large over)
      | no fits ↦ rw (ge→ltb fits) (prepared-Ends (omega arith) _ refl)
    ]
