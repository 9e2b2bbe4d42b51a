-- ===== src/Version/Numbers.antt =====
-- Version numbers count up by one.
use silicon_briefcase.Prelude.{◌+◌, ◌-◌, ◌<◌, ◌≡◌, ◌⊎◌, inl, inr, ok, err, arith, u64_mod}
use native.Mathlib.Decide.{dec_lt}
use silicon_briefcase.Version.{VersionNumber, overflow, version_number, checked_next}

-- From a version number that a `u64` holds, the next one is exactly one larger and is a valid number
-- again; the largest `u64` alone has no next.
pub checked_next-cases :
    (n : VersionNumber)
    → n < u64_mod
    → ((n < u64_mod - 1) × (checked_next n ≡ ok (n + 1)) × (version_number (n + 1) ≡ ok (n + 1)))
      ⊎ ((n ≡ u64_mod - 1) × (checked_next n ≡ err overflow))
unfolding checked_next
checked_next-cases n h = elim (dec_lt n (u64_mod - 1)) [
  | yes low ↦ inl (low, ground arith, ground arith)
  | no high ↦ inr (omega arith, ground arith)
]
