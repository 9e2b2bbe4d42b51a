-- ===== src/Multipart/Lifecycle.antt =====
-- src/domain/multipart.rs: the durable state of an upload session.
pub mod Order
use silicon_briefcase.Prelude.{Bool, true, false, Result, ok, err, if◌then◌else◌}

pub data MultipartUploadState : Type 0 where
  initializing active completing completed aborting aborted failed expired : MultipartUploadState

pub record InvalidMultipartStateTransition : Type 0 where
  pub current : MultipartUploadState
  pub next : MultipartUploadState

-- The `matches!` on the current and the next state.
unfoldable valid_transition : MultipartUploadState → MultipartUploadState → Bool
valid_transition initializing active = true
valid_transition initializing failed = true
valid_transition active completing = true
valid_transition active aborting = true
valid_transition active expired = true
valid_transition active failed = true
valid_transition completing completed = true
valid_transition completing failed = true
valid_transition aborting aborted = true
valid_transition aborting failed = true
valid_transition _ _ = false

unfoldable pub transition :
    MultipartUploadState
    → MultipartUploadState
    → Result MultipartUploadState InvalidMultipartStateTransition
unfolding valid_transition
transition current next =
    if valid_transition current next
    then ok next
    else err (record { current = current; next = next })

unfoldable pub is_terminal : MultipartUploadState → Bool
is_terminal completed = true
is_terminal aborted = true
is_terminal failed = true
is_terminal expired = true
is_terminal _ = false
