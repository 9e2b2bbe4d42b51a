-- ===== src/Content/Reading/Promises.antt =====
-- What the reading of a file promises.
use silicon_briefcase.Prelude.{
  ℕ, ◌≡◌, ◌∙◌, sym, ap, Option, ◌∷◌, ok, map_err-ok, map_ok, Result, err, refl, none, some,
  ok-injective,
}
use silicon_briefcase.Storage.{ByteRange, RangeRequest}
use silicon_briefcase.Content.{ContentIntent, ContentDelivery, DownloadTarget, OpenObject}
use silicon_briefcase.Content.Calls.{
  Calls, object, open_object, authorize_download, record_content_access, ContentService, perform,
  try, pure,
}
use silicon_briefcase.Content.Calls.Steps.{try-ok}
use silicon_briefcase.Content.Guard.{map_object_error, provider}
use silicon_briefcase.Content.Range.{resolve_range}
use silicon_briefcase.Content.Range.Bounds.{IsServed, resolve_range-IsServed}
use silicon_briefcase.Content.Reading.{
  delivered, deliver, open_request, open_target, resolve_request, open_content,
}

map_ok-ok :
    {A B E : Type 0} (f : A → B) (result : Result A E) {b : B}
    → map_ok f result ≡ ok b
    → (a : A) × (result ≡ ok a) × (f a ≡ b)
map_ok-ok f (ok a) e = (a, refl, ok-injective e)
map_ok-ok f (err _) e = absurd (cc)

-- What is opened for a request in a file of a size: all of it without a request, and otherwise the
-- range that the request means.
abbrev pub IsWanted : Option RangeRequest → ℕ → Option ByteRange → Type 0
IsWanted none size range = range ≡ none
IsWanted (some request) size range =
    (wanted : ByteRange) × (range ≡ some wanted) × IsServed request size wanted

resolved-IsWanted :
    (service : ContentService) (entry_id : ℕ) (intent : ContentIntent)
    (request : Option RangeRequest) (target : DownloadTarget) (range : Option ByteRange)
    → resolve_request service entry_id intent request target ≡ ok range
    → IsWanted request target.size range
unfolding resolve_request
resolved-IsWanted service entry_id intent none target range e = sym (ok-injective e)
resolved-IsWanted service entry_id intent (some request) target range e =
    let (wanted, resolved, same) = map_ok-ok some (resolve_range request target.size) e in
    (wanted, sym same, resolve_range-IsServed request target.size wanted resolved)

module _ (service : ContentService) (entry_id : ℕ) (intent : ContentIntent)
    (request : Option RangeRequest) (calls : Calls) where
  abbrev pub authorized : Calls
  authorized = authorize_download entry_id ∷ calls

  abbrev pub opened : DownloadTarget → Option ByteRange → Calls
  opened target range =
      object (
        open_object (record {
          target = target.target;
          key = target.key;
          provider_version_id = target.provider_version_id;
          range = range;
        }))
      ∷ authorized

  -- The read was authorised, the object of the authorised version was opened, whole or at the range that the
  -- request means in a file of the size on record, and the access was recorded.
  abbrev pub Delivered : ContentDelivery → Calls → Type 0
  Delivered delivery calls' =
      (target : DownloadTarget) × (range : Option ByteRange) × (body : OpenObject)
      × (service.repository.download_target authorized ≡ ok target)
      × IsWanted request target.size range
      × (service.objects.opened (opened target range) ≡ ok body)
      × (service.repository.recorded (record_content_access entry_id intent ∷ opened target range)
          ≡ ok tt)
      × (delivery ≡ record {
        filename = target.filename;
        content_type = target.content_type;
        total_size = body.total_size;
        range = body.range;
        etag = body.etag;
        body = body.body;
      })
      × (calls' ≡ record_content_access entry_id intent ∷ opened target range)

  -- Bytes are delivered only after these calls, in this order, and no other: the authorisation of the read; the opening
  -- of the authorised key at the authorised version, whole without a range request, and otherwise at the range
  -- that the satisfiable request means, inside the size on record; and the record of the access. What is delivered is
  -- what was opened, under the name and type on record.
  pub open_content-ok :
      (delivery : ContentDelivery)
      → (open_content service entry_id intent request calls).0 ≡ ok delivery
      → Delivered delivery (open_content service entry_id intent request calls).1
  unfolding open_content open_target deliver provider
  open_content-ok delivery e =
      let (target, allowed, run1) =
        try-ok (perform (authorize_download entry_id) service.repository.download_target)
          (λ target.
            try (pure (resolve_request service entry_id intent request target))
              (open_target service entry_id intent request target))
          calls e in
      let e1 = sym (ap (λ r. r.0) run1) ∙ e in
      let (range, resolved, run2) =
        try-ok (pure (resolve_request service entry_id intent request target))
          (open_target service entry_id intent request target) authorized e1 in
      let e2 = sym (ap (λ r. r.0) run2) ∙ e1 in
      let (body, answered, run3) =
        try-ok (provider (object (open_object (open_request target range))) service.objects.opened)
          (deliver service entry_id intent request target) authorized e2 in
      let e3 = sym (ap (λ r. r.0) run3) ∙ e2 in
      let (written, recorded, run4) =
        try-ok (perform (record_content_access entry_id intent) service.repository.recorded)
          (λ _. pure (ok (delivered target body))) (opened target range) e3 in
      (
        target,
        range,
        body,
        allowed,
        resolved-IsWanted service entry_id intent request target range resolved,
        map_err-ok map_object_error _ answered,
        recorded,
        sym (ok-injective (sym (ap (λ r. r.0) run4) ∙ e3)),
        ap (λ r. r.1) (run1 ∙ run2 ∙ run3 ∙ run4),
      )
