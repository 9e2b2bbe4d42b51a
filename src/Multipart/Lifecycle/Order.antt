-- ===== src/Multipart/Lifecycle/Order.antt =====
-- The life of an upload session only moves forward, and every session can end.
use silicon_briefcase.Prelude.{
  ℕ, ◌<◌, ◌≤◌, true, false, ◌≡◌, ◌≢◌, ◌↔◌, refl, ok, arith, ap, Bool-cases, inl, inr,
}
use silicon_briefcase.Multipart.Lifecycle.{
  MultipartUploadState, initializing, active, completing, completed, aborting, aborted, failed,
  expired, transition, is_terminal,
}

-- A session that went from one state to another by accepted transitions.
pub data Reach (s : MultipartUploadState) : MultipartUploadState → Type 0 where
  here : Reach s s
  next :
      {t : MultipartUploadState} (u : MultipartUploadState)
      → Reach s t
      → transition t u ≡ ok u
      → Reach s u

-- How far along its life a session is.
abbrev stage : MultipartUploadState → ℕ
stage initializing = 0
stage active = 1
stage completing = 2
stage aborting = 2
stage _ = 3

transition-stage : (s t : MultipartUploadState) → transition s t ≡ ok t → stage s < stage t
unfolding transition
transition-stage s t h = ground arith

Reach-stage : {s t : MultipartUploadState} → Reach s t → stage s ≤ stage t
Reach-stage here = omega arith
Reach-stage (next {t = t} u r e) = omega (arith, Reach-stage r, transition-stage t u e)

-- A state that a session left never comes back, by whatever accepted transitions it goes on.
pub Reach-no_return : {s t u : MultipartUploadState} → transition s t ≡ ok t → Reach t u → u ≢ s
Reach-no_return {s} {t} {u} e r q =
    absurd (omega (arith, transition-stage s t e, Reach-stage r, ap stage q))

some_transition :
    (s : MultipartUploadState)
    → is_terminal s ≡ false
    → (t : MultipartUploadState) × (transition s t ≡ ok t)
unfolding transition is_terminal
some_transition initializing h = (active, refl)
some_transition active h = (completing, refl)
some_transition completing h = (completed, refl)
some_transition aborting h = (aborted, refl)
some_transition _ h = absurd (cc)

no_transition : (s t : MultipartUploadState) → is_terminal s ≡ true → transition s t ≢ ok t
unfolding transition is_terminal
no_transition s t h e = ground arith

-- The terminal states are exactly those from which no transition is accepted.
pub is_terminal_iff :
    (s : MultipartUploadState)
    → (is_terminal s ≡ true) ↔ ((t : MultipartUploadState) → transition s t ≢ ok t)
is_terminal_iff s = (
  λ h t. no_transition s t h,
  λ stuck. elim (Bool-cases (is_terminal s)) [
    | inl h ↦ h
    | inr h ↦ let (t, e) = some_transition s h in absurd (stuck t e)
  ],
)

-- Every state can still reach a terminal one by accepted transitions.
pub Reach-is_terminal :
    (s : MultipartUploadState) → (t : MultipartUploadState) × Reach s t × (is_terminal t ≡ true)
unfolding transition is_terminal
Reach-is_terminal initializing = (failed, next failed here refl, refl)
Reach-is_terminal active = (failed, next failed here refl, refl)
Reach-is_terminal completing = (completed, next completed here refl, refl)
Reach-is_terminal aborting = (aborted, next aborted here refl, refl)
Reach-is_terminal completed = (completed, here, refl)
Reach-is_terminal aborted = (aborted, here, refl)
Reach-is_terminal failed = (failed, here, refl)
Reach-is_terminal expired = (expired, here, refl)
