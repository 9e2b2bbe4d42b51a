-- ===== src/Error/Redaction.antt =====
-- What the answer to an error tells, and what it keeps.
use silicon_briefcase.Prelude.{◌≡◌, refl}
use silicon_briefcase.Text.{Str}
use silicon_briefcase.Error.{
  AppError, internal, dependency_unavailable, database_commit_outcome_unknown, public_parts,
  retry_after, unsatisfiable_total_size,
}

-- The label that an error carries for the logs alone.
pub data IsRedacted : (Str → AppError) → Type 0 where
  of_internal : IsRedacted internal
  of_dependency : IsRedacted dependency_unavailable
  of_unknown_commit : IsRedacted database_commit_outcome_unknown

-- The category of an internal error, the name of a dependency and the operation of an unknown commit
-- stay in the logs: whatever they are, the answer has the same status, code, message and headers.
pub public_parts-IsRedacted :
    {wrap : Str → AppError}
    → IsRedacted wrap
    → (a b : Str)
    → (public_parts (wrap a) ≡ public_parts (wrap b))
      × (retry_after (wrap a) ≡ retry_after (wrap b))
      × (unsatisfiable_total_size (wrap a) ≡ unsatisfiable_total_size (wrap b))
unfolding public_parts retry_after unsatisfiable_total_size
public_parts-IsRedacted of_internal a b = (refl, refl, refl)
public_parts-IsRedacted of_dependency a b = (refl, refl, refl)
public_parts-IsRedacted of_unknown_commit a b = (refl, refl, refl)
