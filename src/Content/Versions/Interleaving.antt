-- ===== src/Content/Versions/Interleaving.antt =====
-- How the renewals of a lease and the calls of a copy stand in one history.
use silicon_briefcase.Prelude.{
  ℕ, zero, suc, ◌≡◌, ◌⊎◌, inl, inr, refl, ap, Option, none, some, [], ◌∷◌, ◌++◌, Result, ok, err,
}
use silicon_briefcase.Text.{Str}
use silicon_briefcase.Error.{AppError}
use silicon_briefcase.Storage.{StorageTarget, ObjectKey, ObjectStoreError}
use silicon_briefcase.Content.{RestoreVersionCommand}
use silicon_briefcase.Content.Calls.{Calls, Call, renew_version_restore_lease, ContentService, try}
use silicon_briefcase.Content.Guard.{
  UnpublishedObjectGuard, guard_multipart, drop_guard, cleanup_now, cleanup_unpublished_object,
}
use silicon_briefcase.Content.Versions.Renewal.{
  Wait, go_on, renew, awaiting, waited, whole, guard_of, session_guard, guard_in_flight,
  opened_session, drop_held, drop_copy,
}

module _ (service : ContentService) (command : RestoreVersionCommand) (started : Calls) where
  abbrev pub renewal : Call
  renewal = renew_version_restore_lease command

  -- The calls of a copy, in their order, with renewals that succeeded anywhere behind its first call.
  pub data Interleaved : Calls → Calls → Type 0 where
    nothing_yet : Interleaved [] started
    called :
        {issued history : Calls} (call : Call)
        → Interleaved issued history
        → Interleaved (call ∷ issued) (call ∷ history)
    renewed :
        {last : Call} {issued history : Calls}
        → Interleaved (last ∷ issued) history
        → service.repository.recorded (renewal ∷ history) ≡ ok tt
        → Interleaved (last ∷ issued) (renewal ∷ history)

  -- A wait for a copy that makes some calls: it sees them all while its renewals succeed, and stops
  -- behind one of them at the first renewal that fails.
  pub data IsWait (made : Calls) : Wait → Type 0 where
    going :
        {history : Calls}
        → Interleaved made history
        → IsWait made (record { renewed = ok tt; issued = made; history = history })
    stopped :
        {last : Call} {issued history : Calls} (e : AppError) (later : Calls)
        → made ≡ later ++ last ∷ issued
        → Interleaved (last ∷ issued) history
        → service.repository.recorded (renewal ∷ history) ≡ err e
        → IsWait made
            (record { renewed = err e; issued = last ∷ issued; history = renewal ∷ history })

  module _ (ticks : Calls → ℕ) where
    wait_of : Calls → Result Unit AppError × Calls → Wait
    wait_of issued run = record { renewed = run.0; issued = issued; history = run.1 }

    renewed-IsWait :
        (n : ℕ) (last : Call) (issued history : Calls)
        → Interleaved (last ∷ issued) history
        → ((h : Calls)
            → Interleaved (last ∷ issued) h
            → IsWait
                (last ∷ issued)
                (wait_of (last ∷ issued) (renew service command ticks started n h)))
        → (answer : Result Unit AppError) → service.repository.recorded (renewal ∷ history) ≡ answer
        → IsWait (last ∷ issued) (
            wait_of (last ∷ issued) (
              try
                (λ _. (answer, renewal ∷ history))
                (λ _. renew service command ticks started n)
                history))
    unfolding wait_of
    renewed-IsWait n last issued history so_far rest (ok tt) done =
        rest (renewal ∷ history) (renewed so_far done)
    renewed-IsWait n last issued history so_far rest (err e) failed =
        stopped e [] refl so_far failed

    renew-IsWait :
        (n : ℕ) (last : Call) (issued history : Calls)
        → Interleaved (last ∷ issued) history
        → IsWait
            (last ∷ issued)
            (wait_of (last ∷ issued) (renew service command ticks started n history))
    unfolding renew wait_of
    renew-IsWait zero last issued history so_far = going so_far
    renew-IsWait (suc n) last issued history so_far =
        renewed-IsWait n last issued history so_far (renew-IsWait n last issued)
          (service.repository.recorded (renewal ∷ history)) refl

    go_on-IsWait :
        {made : Calls} {wait : Wait}
        → IsWait made wait
        → (call : Call)
        → IsWait (call ∷ made) (
            go_on wait.renewed (awaiting service command ticks started call made wait.history) wait)
    unfolding awaiting wait_of
    go_on-IsWait {made} (going so_far) call = renew-IsWait _ call made _ (called call so_far)
    go_on-IsWait (stopped e later reached so_far failed) call =
        stopped e (call ∷ later) (ap (λ calls. call ∷ calls) reached) so_far failed

    pub waited-IsWait : (made : Calls) → IsWait made (waited service command ticks started made)
    unfolding waited
    waited-IsWait [] = going nothing_yet
    waited-IsWait (call ∷ made) = go_on-IsWait (waited-IsWait made) call

    -- A multipart session that was opened among some calls.
    abbrev pub Opened : Calls → StorageTarget → ObjectKey → Str → Type 0
    Opened made target key upload_id =
        (opening : Call) × (between : Calls) × (before : Calls) × (made
          ≡ between ++ opening ∷ before)
        × (opened_session opening ≡ some (target, key))
        × (service.objects.identifier (whole service command ticks started (opening ∷ before))
            ≡ ok upload_id)

    -- What dropping a copy adds: nothing, or the cleanup of a session that it opened and did not end.
    abbrev pub IsDropped : Calls → Calls → Calls → Type 0
    IsDropped made before after =
        (after ≡ before)
        ⊎ ((target : StorageTarget) × (key : ObjectKey) × (upload_id : Str) × Opened made target key
              upload_id
            × (after ≡ cleanup_unpublished_object service target key (some upload_id) none before))

    earlier-IsDropped :
        (call : Call) (made before after : Calls)
        → IsDropped made before after
        → IsDropped (call ∷ made) before after
    earlier-IsDropped call made before after (inl same) = inl same
    earlier-IsDropped call made before after
          (inr
            (target, key, upload_id, (opening, between, rest, split, named, answered), cleaned)) =
        inr (
          target,
          key,
          upload_id,
          (opening, call ∷ between, rest, ap (λ calls. call ∷ calls) split, named, answered),
          cleaned,
        )

    guard_of-IsDropped :
        (call : Call) (made before : Calls) (session : Option (StorageTarget × ObjectKey))
        (identifier : Result Str ObjectStoreError) (earlier : Option UnpublishedObjectGuard)
        → opened_session call ≡ session
        → service.objects.identifier (whole service command ticks started (call ∷ made))
          ≡ identifier
        → IsDropped made before (drop_held service command ticks started earlier before)
        → IsDropped (call ∷ made) before (
            drop_held service command ticks started
              (guard_of service command ticks started session identifier earlier)
              before)
    unfolding drop_guard cleanup_now guard_multipart
    guard_of-IsDropped call made before none identifier earlier named answer rest =
        earlier-IsDropped call made before _ rest
    guard_of-IsDropped call made before (some (target, key)) (err _) earlier named answer rest =
        inl refl
    guard_of-IsDropped call made before (some (target, key)) (ok upload_id) earlier named answer
          rest =
        inr (target, key, upload_id, (call, [], made, refl, named, answer), refl)

    session-IsDropped :
        (made before : Calls)
        → IsDropped made before (
            drop_held service command ticks started
              (session_guard service command ticks started made)
              before)
    unfolding session_guard
    session-IsDropped [] before = inl refl
    session-IsDropped (call ∷ made) before =
        guard_of-IsDropped call made before (opened_session call) _ _ refl refl
          (session-IsDropped made before)

    -- Dropping a copy at its last call cleans up a session that was opened before that call, if there is one.
    pub drop_copy-IsDropped :
        (e : AppError) (last : Call) (made before : Calls)
        → IsDropped made before
            (drop_copy service command ticks started (err e) (last ∷ made) before)
    unfolding drop_copy guard_in_flight
    drop_copy-IsDropped e last made before = session-IsDropped made before
