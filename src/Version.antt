-- ===== src/Version.antt =====
-- src/domain/version.rs: version numbers. src/domain/lifetime.rs: bounded lifetimes.
pub mod Numbers
mod Examples
use silicon_briefcase.Prelude.{
  ℕ, ◌*◌, ◌-◌, Bool, ◌||◌, Result, ok, err, ◌>>=◌, ok_or, checked_add, ltb, ◌==◌, if◌then◌else◌, ℤ,
  pos, negsuc,
}

pub data VersionNumberError : Type 0 where
  zero overflow : VersionNumberError

-- A `NonZeroU64`.
abbrev pub VersionNumber : Type 0
VersionNumber = ℕ

abbrev pub first : VersionNumber
first = 1

-- `VersionNumber::new`.
unfoldable pub version_number : ℕ → Result VersionNumber VersionNumberError
version_number value = if value == 0 then err zero else ok value

unfoldable pub checked_next : VersionNumber → Result VersionNumber VersionNumberError
unfolding version_number
checked_next number = do next ← ok_or (checked_add number 1) overflow; version_number next

pub data VersionSource : Type 0 where
  initial_upload upload : VersionSource
  restore : ℕ → VersionSource

-- A `u32` of whole minutes.
abbrev LifetimeMinutes : Type 0
LifetimeMinutes = ℕ

abbrev min_minutes : ℕ
min_minutes = 1

abbrev max_minutes : ℕ
max_minutes = 30 * 24 * 60

pub data LifetimeOutOfRange : Type 0 where
  lifetime_out_of_range : LifetimeOutOfRange

-- `LifetimeMinutes::new`.
unfoldable lifetime_minutes : ℕ → Result LifetimeMinutes LifetimeOutOfRange
lifetime_minutes minutes =
    if ltb minutes min_minutes || ltb max_minutes minutes
    then err lifetime_out_of_range
    else ok minutes

-- `LifetimeMinutes::as_i32`: the cast of a `u32`, which wraps above `i32::MAX`.
unfoldable as_i32 : LifetimeMinutes → ℤ
as_i32 minutes = if ltb minutes 2147483648 then pos minutes else negsuc (4294967296 - minutes - 1)
