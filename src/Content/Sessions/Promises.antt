-- ===== src/Content/Sessions/Promises.antt =====
-- What the start of a multipart session and the upload of a part promise.
use silicon_briefcase.Prelude.{
  ℕ, ◌+◌, ◌≡◌, ◌∙◌, refl, sym, subst, ap, ◌∷◌, Result, ok, err, map_err-ok, ◌==◌, ==→≡, Bool, true,
  false,
}
use silicon_briefcase.Text.{Str}
use silicon_briefcase.Error.{AppError}
use silicon_briefcase.Storage.{ObjectStoreError}
use silicon_briefcase.Multipart.Plan.{
  MultipartPlan, MultipartPlanError, expected_part_size, InvalidPartNumber,
}
use silicon_briefcase.Content.{
  StagedContent, InitiateMultipartCommand, MultipartReceipt, MultipartPreparation,
  MultipartPartTarget, Prepared, acquired, replay,
}
use silicon_briefcase.Content.Calls.{
  Calls, object, upload_part, prepare_multipart, authorize_multipart_part, record_multipart_part,
  now_utc, ContentService, perform,
}
use silicon_briefcase.Content.Calls.Steps.{try-ok, try-keeps}
use silicon_briefcase.Content.Guard.{map_object_error, provider, release}
use silicon_briefcase.Content.Guard.Safety.{destructions, MayBePublished, publish-kept}
use silicon_briefcase.Content.Sessions.{
  part_request, part_recorded, record_part, send_if, send_sized, send_part, upload_one_part,
  release_initiation, publish_session, create_session, initiate_planned, initiate_multipart,
  multipart_session_ttl_seconds,
}

module _ (service : ContentService) (upload_id part_number : ℕ) (staged : StagedContent)
    (calls : Calls) where
  abbrev pub authorized : Calls
  authorized = authorize_multipart_part upload_id part_number ∷ calls

  abbrev pub sent : MultipartPartTarget → Calls
  sent target =
      object (
        upload_part (record {
          target = target.target;
          key = target.key;
          provider_upload_id = target.provider_upload_id;
          part_number = part_number;
          path = staged.path;
          offset = staged.offset;
          size = staged.size;
          checksum_sha256 = staged.sha256;
        }))
      ∷ authorized

  abbrev pub recorded : MultipartPartTarget → Str → Calls
  recorded target etag = record_multipart_part upload_id part_number etag staged ∷ sent target

  -- An accepted part: it has the size that the plan expects, the provider confirmed it, and it was recorded.
  abbrev pub Accepted : Str → Calls → Type 0
  Accepted etag calls' =
      (target : MultipartPartTarget) × (service.repository.part_target authorized ≡ ok target)
      × (expected_part_size target.plan part_number ≡ ok staged.size)
      × (service.objects.identifier (sent target) ≡ ok etag)
      × (service.repository.recorded (recorded target etag) ≡ ok tt)
      × (calls' ≡ recorded target etag)

  part_recorded-ok :
      (target : MultipartPartTarget) (etag etag' : Str) (result : Result Unit AppError) (cs : Calls)
      → (part_recorded service upload_id part_number staged target etag result cs).0 ≡ ok etag'
      → (etag ≡ etag')
        × (result ≡ ok tt)
        × ((part_recorded service upload_id part_number staged target etag result cs).1 ≡ cs)
  unfolding part_recorded
  part_recorded-ok target etag etag' (ok tt) cs e = (cc, refl, refl)
  part_recorded-ok target etag etag' (err _) cs e = absurd (cc)

  send_if-ok :
      (target : MultipartPartTarget) (etag : Str) (fits : Bool)
      → service.repository.part_target authorized ≡ ok target
      → (fits ≡ true → expected_part_size target.plan part_number ≡ ok staged.size)
      → (send_if service upload_id part_number staged target fits authorized).0 ≡ ok etag
      → Accepted etag (send_if service upload_id part_number staged target fits authorized).1
  unfolding send_if record_part provider
  send_if-ok target etag false allowed sized e = absurd (cc)
  send_if-ok target etag true allowed sized e =
      let (etag', answered, run) =
        try-ok
          (provider
            (object (upload_part (part_request service upload_id part_number staged target)))
            service.objects.identifier)
          (record_part service upload_id part_number staged target) authorized e in
      let (same, written, only) =
        part_recorded-ok target etag' etag _ _ (sym (ap (λ r. r.0) run) ∙ e) in
      let answered' = map_err-ok map_object_error _ answered in
      (
        target,
        allowed,
        sized refl,
        subst (λ t. service.objects.identifier (sent target) ≡ ok t) same answered',
        subst (λ t. service.repository.recorded (recorded target t) ≡ ok tt) same written,
        subst
            (λ t.
              (send_if service upload_id part_number staged target true authorized).1
              ≡ recorded target t)
            same (ap (λ r. r.1) run ∙ only),
      )

  send_sized-ok :
      (target : MultipartPartTarget) (etag : Str) (size : Result ℕ InvalidPartNumber)
      → service.repository.part_target authorized ≡ ok target
      → expected_part_size target.plan part_number ≡ size
      → (send_sized service upload_id part_number staged target size authorized).0 ≡ ok etag
      → Accepted etag (send_sized service upload_id part_number staged target size authorized).1
  unfolding send_sized
  send_sized-ok target etag (err _) allowed sized e = absurd (cc)
  send_sized-ok target etag (ok n) allowed sized e =
      send_if-ok target etag (staged.size == n) allowed
        (λ fits. sized ∙ ap ok (sym (==→≡ staged.size n fits))) e

  -- A part is accepted only after these calls and no other: the session was authorised, the part has exactly the size
  -- that the plan of the session gives to its number, the provider confirmed the staged range under the tag
  -- that is returned, and that tag was recorded.
  pub upload_one_part-ok :
      (etag : Str)
      → (upload_one_part service upload_id part_number staged calls).0 ≡ ok etag
      → Accepted etag (upload_one_part service upload_id part_number staged calls).1
  unfolding upload_one_part send_part
  upload_one_part-ok etag e =
      let (target, allowed, run) =
        try-ok
          (perform (authorize_multipart_part upload_id part_number) service.repository.part_target)
          (send_part service upload_id part_number staged) calls e in
      subst (λ r. Accepted etag r.1) (sym run)
        (send_sized-ok target etag _ allowed refl (sym (ap (λ r. r.0) run) ∙ e))

module _ (service : ContentService) (command : InitiateMultipartCommand) where
  Keeps : Calls → Result MultipartReceipt AppError × Calls → Type 0
  Keeps calls run = MayBePublished run.0 → destructions run.1 ≡ destructions calls

  publish_session-Keeps :
      (p : MultipartPreparation) (created : Result Str ObjectStoreError) (calls : Calls)
      → Keeps calls (publish_session service command p created calls)
  unfolding Keeps publish_session release_initiation release
  publish_session-Keeps p (err e) calls kept = refl
  publish_session-Keeps p (ok id) calls kept =
      ap destructions (publish-kept service _ _ _ _ _ kept).0

  create_session-Keeps :
      (prepared : Prepared MultipartPreparation MultipartReceipt) (calls : Calls)
      → Keeps calls (create_session service command prepared calls)
  unfolding Keeps create_session
  create_session-Keeps (replay receipt) calls kept = refl
  create_session-Keeps (acquired p) calls kept = publish_session-Keeps p _ _ kept

  initiate_planned-Keeps :
      (plan : Result MultipartPlan MultipartPlanError) (calls : Calls)
      → Keeps calls (initiate_planned service command plan calls)
  unfolding Keeps initiate_planned
  initiate_planned-Keeps (err e) calls kept = refl
  initiate_planned-Keeps (ok plan) calls kept =
      try-keeps
        (perform
          (prepare_multipart command plan
            (service.clock (now_utc ∷ calls) + multipart_session_ttl_seconds))
          service.repository.session)
        (create_session service command) (now_utc ∷ calls) MayBePublished
        (λ cs. destructions cs ≡ destructions calls) refl
        (λ prepared _ kept'. create_session-Keeps prepared _ kept') kept

  -- Starting a session takes nothing away from object storage when it succeeds or when
  -- the outcome of its commit is unknown: the provider's session is not aborted.
  pub initiate_multipart-keeps :
      (calls : Calls)
      → MayBePublished (initiate_multipart service command calls).0
      → destructions (initiate_multipart service command calls).1 ≡ destructions calls
  unfolding initiate_multipart Keeps
  initiate_multipart-keeps calls kept = initiate_planned-Keeps _ calls kept
