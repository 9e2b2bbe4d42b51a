-- ===== src/Content/Versions/Renewal.antt =====
-- src/application/content.rs: the wait of a restore for its copy, with the renewals of its lease. The
-- copy runs on its own list of calls, from the empty one; between two of its calls, and before the answer to the last
-- one is taken, the timer may fire any number of times, which is a parameter, and each time the lease is
-- renewed. A renewal that fails ends the wait and leaves the copy where it is.
use silicon_briefcase.Prelude.{ℕ, zero, suc, Option, none, some, [], ◌∷◌, Result, ok, err}
use silicon_briefcase.Text.{Str}
use silicon_briefcase.Error.{AppError}
use silicon_briefcase.Storage.{StorageTarget, ObjectKey, StoredObject, ObjectStoreError}
use silicon_briefcase.Content.{RestoreVersionCommand}
use silicon_briefcase.Content.Calls.{
  Calls, Action, Call, object, create_multipart, renew_version_restore_lease, ContentService,
  perform, try, pure,
}
use silicon_briefcase.Content.Guard.{UnpublishedObjectGuard, guard_multipart, drop_guard}

-- The service for a future whose calls stand in a longer history. The copy calls object storage and the
-- file system only.
abbrev pub seen_through : (Calls → Calls) → ContentService → ContentService
seen_through whole service = record service {
  objects = record {
    stored = λ calls. service.objects.stored (whole calls);
    opened = λ calls. service.objects.opened (whole calls);
    metadata = λ calls. service.objects.metadata (whole calls);
    identifier = λ calls. service.objects.identifier (whole calls);
    done = λ calls. service.objects.done (whole calls);
  };
  files = record {
    temporary = λ calls. service.files.temporary (whole calls);
    prepared = λ calls. service.files.prepared (whole calls);
    bytes = λ calls. service.files.bytes (whole calls);
  };
}

-- A wait: whether the renewals succeeded, the calls that the copy has made, and all calls.
pub record Wait : Type 0 where
  pub renewed : Result Unit AppError
  pub issued : Calls
  pub history : Calls

abbrev pub go_on : Result Unit AppError → Wait → Wait → Wait
go_on (ok _) going stopped = going
go_on (err _) going stopped = stopped

-- What the wait answers: a renewal that failed, or what the copy answered.
abbrev pub answered :
    Result Unit AppError → Result StoredObject AppError → Result StoredObject AppError
answered (ok _) result = result
answered (err e) result = err e

-- Where a call opens a multipart session.
unfoldable pub opened_session : Call → Option (StorageTarget × ObjectKey)
opened_session (object (create_multipart target key content_type)) = some (target, key)
opened_session _ = none

module _ (service : ContentService) (command : RestoreVersionCommand) (ticks : Calls → ℕ)
    (started : Calls) where
  unfoldable pub renew : ℕ → Action (Result Unit AppError)
  renew zero = pure (ok tt)
  renew (suc n) =
      try (perform (renew_version_restore_lease command) service.repository.recorded) (λ _. renew n)

  -- A call of the copy, and the renewals while its answer is awaited.
  unfoldable pub awaiting : Call → Calls → Calls → Wait
  awaiting call made history =
      let (renewed, renewed_history) = renew (ticks (call ∷ made)) (call ∷ history) in
      record { renewed = renewed; issued = call ∷ made; history = renewed_history }

  -- The wait until the copy has made these calls.
  unfoldable pub waited : Calls → Wait
  waited [] = record { renewed = ok tt; issued = []; history = started }
  waited (call ∷ made) =
      let so_far = waited made in go_on so_far.renewed (awaiting call made so_far.history) so_far

  -- The whole history at the last call of the copy.
  unfoldable pub whole : Calls → Calls
  whole [] = started
  whole (call ∷ made) = call ∷ (waited made).history

  abbrev pub copying : ContentService
  copying = seen_through whole service

  -- The `select!` loop: a copy of the service it is given, with its own calls.
  unfoldable pub await_copy :
      (ContentService → Action (Result StoredObject AppError)) → Result StoredObject AppError × Wait
  await_copy copy =
      let (result, made) = copy copying [] in
      let wait = waited made in (answered wait.renewed result, wait)

  -- The guard of the large copy, armed from the answer that opens the multipart session.
  abbrev pub guard_of :
      Option (StorageTarget × ObjectKey)
      → Result Str ObjectStoreError
      → Option UnpublishedObjectGuard
      → Option UnpublishedObjectGuard
  guard_of none identifier earlier = earlier
  guard_of (some (target, key)) (ok upload_id) earlier = some (guard_multipart target key upload_id)
  guard_of (some (target, key)) (err _) earlier = none

  unfoldable pub session_guard : Calls → Option UnpublishedObjectGuard
  session_guard [] = none
  session_guard (call ∷ made) =
      guard_of (opened_session call) (service.objects.identifier (whole (call ∷ made)))
        (session_guard made)

  -- The guard that a copy has when it is dropped: its last call has no answer yet.
  unfoldable pub guard_in_flight : Calls → Option UnpublishedObjectGuard
  guard_in_flight [] = none
  guard_in_flight (last ∷ made) = session_guard made

  abbrev pub drop_held : Option UnpublishedObjectGuard → Calls → Calls
  drop_held none calls = calls
  drop_held (some guard) calls = drop_guard service guard calls

  -- The end of the function drops the future of the copy: one that has ended holds nothing.
  unfoldable pub drop_copy : Result Unit AppError → Calls → Calls → Calls
  drop_copy (ok _) issued calls = calls
  drop_copy (err _) issued calls = drop_held (guard_in_flight issued) calls
