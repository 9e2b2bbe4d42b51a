-- ===== src/Content/Guard/Safety.antt =====
-- What the guard lets happen to an object once its publication has been tried.
use silicon_briefcase.Prelude.{ℕ, suc, ◌≡◌, refl, ◌∙◌, sym, subst, [], ◌∷◌, Result, ok, err}
use silicon_briefcase.Error.{AppError}
use silicon_briefcase.Storage.{ObjectStoreError, invalid_configuration, unavailable}
use silicon_briefcase.Content.Calls.{Calls, Call, object, delete, abort_multipart, ContentService}
use silicon_briefcase.Content.Guard.{
  map_object_error, publication_failure_disposition, PublicationFailureDisposition,
  preserve_provider_state, compensate_provider_state, UnpublishedObjectGuard, disarm, drop_guard,
  leave, compensate, settle, publish, cleanup_now, cleanup_unpublished_object,
}

-- The calls that take objects or sessions away from object storage.
abbrev pub destructions : Calls → ℕ
destructions [] = 0
destructions (object (delete target key version) ∷ calls) = suc (destructions calls)
destructions (object (abort_multipart target key id) ∷ calls) = suc (destructions calls)
destructions (call ∷ calls) = destructions calls

-- A result after which the object may be published: success, or an unknown outcome of the commit.
abbrev pub MayBePublished : {A : Type 0} → Result A AppError → Type 0
MayBePublished (ok a) = Unit
MayBePublished (err e) = publication_failure_disposition e ≡ preserve_provider_state

module _ (service : ContentService) {A : Type 0} (guard : UnpublishedObjectGuard)
    (after : Calls → Calls) where
  -- A publication that may have succeeded leaves the object alone.
  pub settle-MayBePublished :
      (result : Result A AppError) (calls : Calls)
      → MayBePublished result
      → settle service guard after result calls ≡ (result, calls)
  unfolding settle leave drop_guard disarm
  settle-MayBePublished (ok a) calls kept = refl
  settle-MayBePublished (err e) calls kept = rw (kept, settle) refl

  -- A failed publication cleans up, then does what comes after.
  pub settle-compensates :
      (e : AppError) (calls : Calls)
      → publication_failure_disposition e ≡ compensate_provider_state
      → settle service {A = A} guard after (err e) calls ≡ (
        err e,
        after (
            cleanup_unpublished_object service guard.target guard.key guard.provider_upload_id
              guard.provider_version_id calls),
      )
  unfolding settle compensate cleanup_now leave drop_guard disarm
  settle-compensates e calls failed = rw (failed, settle) refl

  pub compensate_lem :
      (result : A) (calls : Calls)
      → compensate service guard after result calls ≡ (
        result,
        after (
            cleanup_unpublished_object service guard.target guard.key guard.provider_upload_id
              guard.provider_version_id calls),
      )
  unfolding compensate cleanup_now leave drop_guard disarm
  compensate_lem result calls = refl

pub map_object_error-compensates :
    (e : ObjectStoreError)
    → publication_failure_disposition (map_object_error e) ≡ compensate_provider_state
unfolding map_object_error publication_failure_disposition
map_object_error-compensates ObjectStoreError.not_found = refl
map_object_error-compensates ObjectStoreError.conflict = refl
map_object_error-compensates invalid_configuration = refl
map_object_error-compensates unavailable = refl
map_object_error-compensates ObjectStoreError.internal = refl

-- The cleanup of a guard.
abbrev pub cleaned : ContentService → UnpublishedObjectGuard → Calls → Calls
cleaned service guard calls =
    cleanup_unpublished_object service guard.target guard.key guard.provider_upload_id
      guard.provider_version_id calls

-- A publication is one call. It stays alone when the object may be published; otherwise the
-- cleanup follows, and what comes after it.
pub data Publication (service : ContentService) {A : Type 0} (guard : UnpublishedObjectGuard)
    (after : Calls → Calls) (commit : Call) (answer : Calls → Result A AppError) (calls : Calls)
    : Result A AppError → Calls → Type 0 where
  settled :
      (result : Result A AppError)
      → answer (commit ∷ calls) ≡ result
      → MayBePublished result
      → Publication service guard after commit answer calls result (commit ∷ calls)
  taken_back :
      (e : AppError)
      → answer (commit ∷ calls) ≡ err e
      → publication_failure_disposition e ≡ compensate_provider_state
      → Publication service guard after commit answer calls
          (err e)
          (after (cleaned service guard (commit ∷ calls)))

module _ (service : ContentService) {A : Type 0} (guard : UnpublishedObjectGuard)
    (after : Calls → Calls) (commit : Call) (answer : Calls → Result A AppError)
    (calls : Calls) where
  abbrev Ends : Result A AppError × Calls → Type 0
  Ends run = Publication service guard after commit answer calls run.0 run.1

  settle_failed :
      (e : AppError) (d : PublicationFailureDisposition)
      → publication_failure_disposition e ≡ d
      → answer (commit ∷ calls) ≡ err e
      → Ends (settle service guard after (err e) (commit ∷ calls))
  settle_failed e preserve_provider_state kind failed =
      subst Ends (sym (settle-MayBePublished service guard after (err e) _ kind))
        (settled (err e) failed kind)
  settle_failed e compensate_provider_state kind failed =
      subst Ends (sym (settle-compensates service guard after e _ kind)) (taken_back e failed kind)

  settle-Ends :
      (result : Result A AppError)
      → answer (commit ∷ calls) ≡ result
      → Ends (settle service guard after result (commit ∷ calls))
  settle-Ends (ok a) done =
      subst Ends (sym (settle-MayBePublished service guard after (ok a) _ tt))
        (settled (ok a) done tt)
  settle-Ends (err e) failed = settle_failed e (publication_failure_disposition e) refl failed

  pub publish-Publication : Ends (publish service guard after commit answer calls)
  unfolding publish
  publish-Publication = settle-Ends _ refl

-- A publication whose object may be published is its one call.
pub Publication-kept :
    {service : ContentService} {A : Type 0} {guard : UnpublishedObjectGuard} {after : Calls → Calls}
    {commit : Call} {answer : Calls → Result A AppError} {calls : Calls}
    {result : Result A AppError} {calls' : Calls}
    → Publication service guard after commit answer calls result calls'
    → MayBePublished result
    → (calls' ≡ commit ∷ calls) × (answer (commit ∷ calls) ≡ result)
Publication-kept (settled result answered kept) kept' = (refl, answered)
Publication-kept (taken_back e failed kind) kept = absurd (cc)

module _ (service : ContentService) {A : Type 0} (guard : UnpublishedObjectGuard)
    (after : Calls → Calls) (commit : Call) (answer : Calls → Result A AppError)
    (calls : Calls) where
  -- A publication whose object may be published is one call, whose answer is the result.
  pub publish-kept :
      MayBePublished (publish service guard after commit answer calls).0
      → ((publish service guard after commit answer calls).1 ≡ commit ∷ calls)
        × (answer (commit ∷ calls) ≡ (publish service guard after commit answer calls).0)
  publish-kept kept =
      Publication-kept (publish-Publication service guard after commit answer calls) kept

  pub publish-ok :
      {a : A}
      → (publish service guard after commit answer calls).0 ≡ ok a
      → ((publish service guard after commit answer calls).1 ≡ commit ∷ calls)
        × (answer (commit ∷ calls) ≡ ok a)
  publish-ok e =
      let (only, answered) = publish-kept (subst MayBePublished (sym e) tt) in (only, answered ∙ e)
