-- ===== src/Content/Versions/Promises.antt =====
-- What the restore of a version promises.
use silicon_briefcase.Prelude.{ℕ, ◌≡◌, ◌∙◌, ◌⊎◌, inl, inr, sym, subst, ◌∷◌, ◌++◌, Result, ok, err}
use silicon_briefcase.Text.{codes}
use silicon_briefcase.Error.{AppError}
use silicon_briefcase.Storage.{StoredObject}
use silicon_briefcase.Content.{RestoreVersionCommand, RestorePreparation, acquired, replay}
use silicon_briefcase.Content.Calls.{
  Calls, Call, commit_version_restore, release_operation, ContentService,
}
use silicon_briefcase.Content.Guard.Safety.{MayBePublished, Publication-kept}
use silicon_briefcase.Content.Versions.{restore_version}
use silicon_briefcase.Content.Versions.Interleaving.{renewal, Interleaved, IsDropped}
use silicon_briefcase.Content.Versions.Outcomes.{
  asked, copied, given_back, Restoration, refused, replayed, interrupted, not_copied, published,
  restore_version-Restoration,
}

module _ (service : ContentService) (command : RestoreVersionCommand) (ticks : Calls → ℕ)
    (calls : Calls) where
  abbrev at : Calls
  at = asked service command ticks calls

  -- The copy succeeded, between renewals that succeeded, and its object was committed with the last call.
  abbrev pub Restored : ℕ → Calls → Type 0
  Restored entry_id calls' =
      (p : RestorePreparation) × (stored : StoredObject) × (history : Calls)
      × (service.repository.restore at ≡ ok (acquired p))
      × ((copied service command ticks calls p).0 ≡ ok stored)
      × Interleaved service command at (copied service command ticks calls p).1 history
      × (service.repository.entry (commit_version_restore command p stored ∷ history) ≡ ok entry_id)
      × (calls' ≡ commit_version_restore command p stored ∷ history)

  Restoration-ok :
      {result : Result ℕ AppError} {calls' : Calls}
      → Restoration service command ticks calls result calls'
      → (entry_id : ℕ) → result ≡ ok entry_id
      → (service.repository.restore at ≡ ok (replay entry_id)) ⊎ Restored entry_id calls'
  Restoration-ok (refused _ answer) entry_id e = absurd (cc)
  Restoration-ok (replayed old answer) entry_id e = inl cc
  Restoration-ok (interrupted p _ last issued later history lease reached so_far failed dropped)
        entry_id e =
      absurd (cc)
  Restoration-ok (not_copied p _ history lease copy whole) entry_id e = absurd (cc)
  Restoration-ok (published p stored history lease copy whole publication) entry_id e =
      let (only, answer) = Publication-kept publication (subst MayBePublished (sym e) tt) in
      inr (p, stored, history, lease, copy, whole, answer ∙ e, only)

  -- A restore that succeeds is the replay of an earlier one, or its copy succeeded and the last call commits the copied object and
  -- answers the result, so that nothing is deleted after it. The calls before it are those of the copy, in their order, with
  -- renewals of the lease anywhere behind the first of them, each of which succeeded.
  pub restore_version-ok :
      (entry_id : ℕ)
      → (restore_version service command ticks calls).0 ≡ ok entry_id
      → (service.repository.restore at ≡ ok (replay entry_id))
        ⊎ Restored entry_id (restore_version service command ticks calls).1
  restore_version-ok entry_id e =
      Restoration-ok (restore_version-Restoration service command ticks calls) entry_id e

  -- The lease is given back with the last call.
  abbrev pub GivenBack : Calls → Type 0
  GivenBack calls' =
      (before : Calls) × (calls'
        ≡ release_operation (codes "restore_version") command.idempotency ∷ before)

  -- A renewal failed behind some call of the copy: the destination is cleaned up and the lease given back, and
  -- only then a multipart session that the dropped copy had open.
  abbrev pub Interrupted : AppError → Calls → Type 0
  Interrupted e calls' =
      (p : RestorePreparation) × (last : Call) × (issued : Calls) × (later : Calls)
      × (history : Calls) × ((copied service command ticks calls p).1 ≡ later ++ last ∷ issued)
      × Interleaved service command at (last ∷ issued) history
      × (service.repository.recorded (renewal service command at ∷ history) ≡ err e)
      × IsDropped service command at ticks issued
          (given_back service command ticks calls p (renewal service command at ∷ history)) calls'
