-- ===== src/Content/Versions/Outcomes.antt =====
-- How the restore of a version can end.
use silicon_briefcase.Prelude.{ℕ, ◌≡◌, refl, sym, subst, none, [], ◌∷◌, ◌++◌, Result, ok, err}
use silicon_briefcase.Text.{codes}
use silicon_briefcase.Error.{AppError}
use silicon_briefcase.Storage.{StoredObject}
use silicon_briefcase.Content.{
  RestoreVersionCommand, RestorePreparation, Prepared, acquired, replay,
}
use silicon_briefcase.Content.Calls.{
  Calls, Call, prepare_version_restore, commit_version_restore, release_operation, ContentService,
  try,
}
use silicon_briefcase.Content.Guard.{
  guard_destination, record_stored_object, release, cleanup_unpublished_object, compensate,
  cleanup_now, leave, drop_guard, disarm,
}
use silicon_briefcase.Content.Guard.Safety.{Publication, publish-Publication, compensate_lem}
use silicon_briefcase.Content.Versions.{
  copy_version_for_restore, release_restore, publish_restored, restore_prepared, restore_version,
}
use silicon_briefcase.Content.Versions.Renewal.{Wait, copying, answered, drop_copy, await_copy}
use silicon_briefcase.Content.Versions.Interleaving.{
  renewal, Interleaved, IsWait, going, stopped, waited-IsWait, IsDropped, drop_copy-IsDropped,
}

module _ (service : ContentService) (command : RestoreVersionCommand) (ticks : Calls → ℕ)
    (calls : Calls) where
  abbrev pub asked : Calls
  asked = prepare_version_restore command ∷ calls

  -- The copy of a prepared restore: its answer and its own calls. Each of its calls is answered at its place
  -- in the whole history.
  abbrev pub copied : RestorePreparation → Result StoredObject AppError × Calls
  copied p = copy_version_for_restore (copying service command ticks asked) p []

  -- The cleanup of the destination, and the release of the lease.
  abbrev pub given_back : RestorePreparation → Calls → Calls
  given_back p history =
      release_operation (codes "restore_version") command.idempotency
      ∷ cleanup_unpublished_object service p.destination_target p.destination_key none none history

  pub data Restoration : Result ℕ AppError → Calls → Type 0 where
    refused : (e : AppError) → service.repository.restore asked ≡ err e → Restoration (err e) asked
    replayed :
        (entry_id : ℕ)
        → service.repository.restore asked ≡ ok (replay entry_id)
        → Restoration (ok entry_id) asked
    interrupted :
        (p : RestorePreparation) (e : AppError) (last : Call) (issued later history : Calls)
        {calls' : Calls}
        → service.repository.restore asked ≡ ok (acquired p)
        → (copied p).1 ≡ later ++ last ∷ issued
        → Interleaved service command asked (last ∷ issued) history
        → service.repository.recorded (renewal service command asked ∷ history) ≡ err e
        → IsDropped service command asked ticks issued
            (given_back p (renewal service command asked ∷ history))
            calls'
        → Restoration (err e) calls'
    not_copied :
        (p : RestorePreparation) (e : AppError) (history : Calls)
        → service.repository.restore asked ≡ ok (acquired p)
        → (copied p).0 ≡ err e
        → Interleaved service command asked (copied p).1 history
        → Restoration (err e) (given_back p history)
    published :
        (p : RestorePreparation) (stored : StoredObject) (history : Calls)
        {result : Result ℕ AppError} {calls' : Calls}
        → service.repository.restore asked ≡ ok (acquired p)
        → (copied p).0 ≡ ok stored
        → Interleaved service command asked (copied p).1 history
        → Publication service
            (record_stored_object (guard_destination p.destination_target p.destination_key) stored)
            (release_restore service command)
            (commit_version_restore command p stored)
            service.repository.entry
            history
            result
            calls'
        → Restoration result calls'

  Ends : Result ℕ AppError × Calls → Type 0
  Ends run = Restoration run.0 run.1

  module _ (p : RestorePreparation)
      (lease : service.repository.restore asked ≡ ok (acquired p)) where
    -- What comes after a wait that answered a result.
    after_wait : Result StoredObject AppError → Wait → Result ℕ AppError × Calls
    after_wait result wait =
        let (outcome, done) =
          publish_restored service command p
            (guard_destination p.destination_target p.destination_key)
            (answered wait.renewed result) wait.history in
        (outcome, drop_copy service command ticks asked wait.renewed wait.issued done)

    published-Ends :
        (result : Result StoredObject AppError) (history : Calls)
        → (copied p).0 ≡ result
        → Interleaved service command asked (copied p).1 history
        → Ends (
            publish_restored service command p
              (guard_destination p.destination_target p.destination_key)
              result
              history)
    unfolding Ends publish_restored guard_destination release_restore release
    published-Ends (ok stored) history copy whole =
        published p stored history lease copy whole (publish-Publication service _ _ _ _ _)
    published-Ends (err e) history copy whole =
        subst Ends (sym (compensate_lem service _ _ _ _)) (not_copied p e history lease copy whole)

    after_wait-Ends :
        (result : Result StoredObject AppError) (wait : Wait)
        → (copied p).0 ≡ result
        → IsWait service command asked (copied p).1 wait
        → Ends (after_wait result wait)
    unfolding after_wait drop_copy publish_restored compensate cleanup_now leave drop_guard disarm
        guard_destination release_restore release Ends
    after_wait-Ends result wait copy (going whole) = published-Ends result _ copy whole
    after_wait-Ends result wait copy
          (stopped {last} {issued} {history} e later reached so_far failed) =
        interrupted p e last issued later history lease reached so_far failed
          (drop_copy-IsDropped service command asked ticks e last issued _)

  prepared-Ends :
      (prepared : Result (Prepared RestorePreparation ℕ) AppError)
      → service.repository.restore asked ≡ prepared
      → Ends (try (λ _. (prepared, asked)) (restore_prepared service command ticks) calls)
  unfolding restore_prepared await_copy after_wait Ends
  prepared-Ends (err e) answer = refused e answer
  prepared-Ends (ok (replay entry_id)) answer = replayed entry_id answer
  prepared-Ends (ok (acquired p)) answer =
      after_wait-Ends p answer (copied p).0 _ refl
        (waited-IsWait service command asked ticks (copied p).1)

  -- Every run of a restore ends in one of these five ways.
  pub restore_version-Restoration :
      Restoration
        (restore_version service command ticks calls).0
        (restore_version service command ticks calls).1
  unfolding restore_version Ends
  restore_version-Restoration = prepared-Ends _ refl
