-- ===== src/Archive/Zip/Entries/Limits.antt =====
-- How many entries a listing of a zip archive has, and that its loop ends.
use native.Mathlib.Nat.{add-suc}
use silicon_briefcase.Prelude.{
  ℕ, zero, suc, ◌+◌, ◌≤◌, ◌≡◌, ◌≢◌, refl, ap, Bool, true, false, Bool-cases, inl, inr, Option, none,
  some, List, [], ◌∷◌, length, arith, ◌==◌,
}
use silicon_briefcase.Text.{Str}
use silicon_briefcase.Archive.{ArchiveItem}
use silicon_briefcase.Archive.Zip.{slice, u32_at, is_value}
use silicon_briefcase.Archive.Zip.Entries.{
  Round, ended, entry, of_parts, read_entry, zip_round, after_round, zip_loop, zip_entries,
}

module _ {Time : Type 0} (datetime : ℕ → ℕ → ℕ → ℕ → ℕ → ℕ → Option Time)
    (from_unix : ℕ → Option Time) (utf8_lossy : List ℕ → Str) (directory : List ℕ) (limit : ℕ) where
  abbrev Entry : Type 0
  Entry = ArchiveItem Time

  -- A round that lists an entry has room for it and moves on.
  Moves : ℕ → ℕ → Round datetime from_unix utf8_lossy → Type 0
  Moves at listed (ended complete) = Unit
  Moves at listed (entry item next) = (listed ≢ limit) × (at + 46 ≤ next)

  of_parts-Moves :
      (at listed next : ℕ) (fixed : List ℕ) (name extra_bytes : Option (List ℕ))
      → listed ≢ limit
      → at + 46 ≤ next
      → Moves at listed (of_parts datetime from_unix utf8_lossy fixed next name extra_bytes)
  unfolding Moves
  of_parts-Moves at listed next fixed none extra_bytes h g = tt
  of_parts-Moves at listed next fixed (some name) none h g = tt
  of_parts-Moves at listed next fixed (some name) (some extra_bytes) h g = (h, g)

  read_entry-Moves :
      (at listed : ℕ) (fixed : Option (List ℕ))
      → listed ≢ limit
      → Moves at listed (read_entry datetime from_unix utf8_lossy directory at fixed)
  unfolding read_entry Moves
  read_entry-Moves at listed none h = tt
  read_entry-Moves at listed (some fixed) h = of_parts-Moves at listed _ fixed _ _ h (omega arith)

  zip_round-Moves :
      (at listed : ℕ)
      → Moves at listed (zip_round datetime from_unix utf8_lossy directory limit at listed)
  unfolding zip_round Moves
  zip_round-Moves at listed = elim (Bool-cases (is_value (u32_at directory at) 0x02014b50)) [
    | inr h ↦ rw h tt
    | inl h ↦ rw h (elim (Bool-cases (listed == limit)) [
      | inl full ↦ rw full tt
      | inr room ↦ rw room (read_entry-Moves at listed _ (λ e. ground arith))
    ])
  ]

  -- Behind the directory there is no header.
  zip_round-behind :
      (at listed : ℕ)
      → length directory ≤ at
      → zip_round datetime from_unix utf8_lossy directory limit at listed ≡ ended true
  unfolding zip_round u32_at slice
  zip_round-behind at listed h = ground arith

  after_round-length :
      (at listed : ℕ) (rest : ℕ → List Entry × Bool) (round : Round datetime from_unix utf8_lossy)
      → listed ≤ limit
      → Moves at listed round
      → ((next : ℕ) → listed + 1 ≤ limit → listed + 1 + length (rest next).0 ≤ limit)
      → listed + length (after_round datetime from_unix utf8_lossy rest round).0 ≤ limit
  unfolding Moves
  after_round-length at listed rest (ended complete) h moves more = omega arith
  after_round-length at listed rest (entry item next) h moves more =
      let different = moves.0 in
      let below : listed + 1 ≤ limit = ground arith in omega (arith, more next below)

  zip_loop-length :
      (fuel at listed : ℕ)
      → listed ≤ limit
      → listed + length (zip_loop datetime from_unix utf8_lossy fuel directory limit at listed).0
        ≤ limit
  unfolding zip_loop
  zip_loop-length zero at listed h = omega arith
  zip_loop-length (suc fuel) at listed h =
      after_round-length at listed _ _ h (zip_round-Moves at listed)
        (λ next below. zip_loop-length fuel next (listed + 1) below)

  zip_loop-behind :
      (fuel at listed : ℕ)
      → length directory ≤ at
      → zip_loop datetime from_unix utf8_lossy fuel directory limit at listed ≡ ([], true)
  unfolding zip_loop
  zip_loop-behind zero at listed h = refl
  zip_loop-behind (suc fuel) at listed h = rw (zip_round-behind at listed h) refl

  after_round-agree :
      (at listed : ℕ) (f g : ℕ → List Entry × Bool) (round : Round datetime from_unix utf8_lossy)
      → Moves at listed round
      → ((next : ℕ) → at + 46 ≤ next → f next ≡ g next)
      → after_round datetime from_unix utf8_lossy f round
        ≡ after_round datetime from_unix utf8_lossy g round
  unfolding Moves
  after_round-agree at listed f g (ended complete) moves same = refl
  after_round-agree at listed f g (entry item next) moves same =
      ap (λ r. (item ∷ r.0, r.1)) (same next moves.1)

  -- As many rounds as the directory has bytes left are enough: with more of them, the loop finds the same
  -- entries and ends in the same way.
  pub zip_loop-enough :
      (fuel more at listed : ℕ)
      → length directory ≤ at + fuel
      → zip_loop datetime from_unix utf8_lossy (more + fuel) directory limit at listed
        ≡ zip_loop datetime from_unix utf8_lossy fuel directory limit at listed
  unfolding zip_loop
  zip_loop-enough zero more at listed h = zip_loop-behind (more + 0) at listed (omega arith)
  zip_loop-enough (suc fuel) more at listed h = rw add-suc (
      after_round-agree at listed _ _ _ (zip_round-Moves at listed)
        (λ next far. zip_loop-enough fuel more next (listed + 1) (omega (arith, far))))

  -- A listing never has more entries than its limit, and one that is not marked as cut short has all the entries
  -- that the archive declares.
  pub zip_entries-bounded :
      (declared : ℕ)
      → let listed = zip_entries datetime from_unix utf8_lossy directory declared limit in
        (length listed.entries ≤ limit)
        × (listed.truncated ≡ false → declared ≤ length listed.entries)
  unfolding zip_entries
  zip_entries-bounded declared =
      let fits = zip_loop-length (length directory) 0 0 (omega arith) in
      (omega (arith, fits), λ whole. ground arith)
