-- ===== src/Worker/Policy/Delay.antt =====
-- Where retry delays lie.
use native.Mathlib.Nat.{mod-lt}
use native.Mathlib.Decide.{dec_lt}
use native.Mathlib.Omega.{pow_step}
use silicon_briefcase.Prelude.{
  ℕ, zero, suc, ◌+◌, ◌-◌, ◌*◌, ◌/◌, ◌^◌, ◌≤◌, ◌<◌, ◌≡◌, arith, refl, ==_refl,
}
use silicon_briefcase.Worker.Policy.{
  u128_mod, Duration, duration_mod, duration_min, as_millis, double_capped, capped_exponential,
  jitter_offset, jitter, retry_delay,
}

pow_pos : (n : ℕ) → 1 ≤ 2 ^ n
pow_pos zero = omega arith
pow_pos (suc n) = omega (arith, pow_pos n, pow_step 2 n)

double_capped-maximum : (maximum rounds : ℕ) → double_capped maximum rounds maximum ≡ maximum
unfolding double_capped
double_capped-maximum maximum zero = refl
double_capped-maximum maximum (suc rounds) = rw (==_refl maximum)

times_pow : (d n : ℕ) → d * 2 * 2 ^ n ≡ d * 2 ^ suc n
times_pow d n = grind (arith, pow_step 2 n)

times_pow-le : (d n : ℕ) → d ≤ d * 2 ^ n
times_pow-le d n = grind (arith, pow_pos n)

double_capped_lem :
    (maximum rounds delay : ℕ)
    → maximum < duration_mod
    → delay ≤ maximum
    → double_capped maximum rounds delay ≡ duration_min (delay * 2 ^ rounds) maximum
unfolding double_capped
double_capped_lem maximum zero delay h g = ground arith
double_capped_lem maximum (suc rounds) delay h g = elim (dec_lt delay maximum) [
  | no n ↦ ground (arith, times_pow-le delay (suc rounds))
  | yes y ↦ elim (dec_lt maximum (delay * 2)) [
    | no small ↦ ground (
      arith,
      double_capped_lem maximum rounds (delay * 2) h (omega arith),
      times_pow delay rounds,
    )
    | yes over ↦ ground (
      arith,
      double_capped-maximum maximum rounds,
      times_pow-le (delay * 2) rounds,
      times_pow delay rounds,
    )
  ]
]

jitter_offset-le : (w e a : ℕ) → jitter_offset w e a ≤ w
unfolding jitter_offset
jitter_offset-le w e a = elim (dec_lt (w + 1) u128_mod) [
  | yes small ↦ grind (arith, mod-lt)
  | no big ↦ grind (arith, mod-lt)
]

jitter-le : (window e a : ℕ) → jitter window e a ≤ window
unfolding jitter
jitter-le window e a = ground (arith, jitter_offset-le (as_millis window) e a)

module _ (base maximum : Duration) (fits : maximum < duration_mod) where
  -- The loop that doubles the delay until it meets the maximum computes the capped power: before the
  -- attempt `n + 1` the delay is the base doubled `n` times, or the maximum if that is less.
  pub capped_exponential_lem :
      (n : ℕ) → capped_exponential base maximum (n + 1) ≡ duration_min (base * 2 ^ n) maximum
  unfolding capped_exponential
  capped_exponential_lem n = elim (dec_lt maximum base) [
    | no small ↦ ground (arith, double_capped_lem maximum n base)
    | yes over ↦ ground (arith, double_capped-maximum maximum n, times_pow-le base n)
  ]

  capped_exponential-le : (attempt : ℕ) → capped_exponential base maximum attempt ≤ maximum
  unfolding capped_exponential
  capped_exponential-le attempt =
      ground (arith, double_capped_lem maximum (attempt - 1) (duration_min base maximum))

  -- A retry waits at least half of the capped delay of its attempt and at most all of it, whichever
  -- event it is for, and never longer than the maximum.
  pub retry_delay-bounds :
      (attempt event_id : ℕ)
      → (capped_exponential base maximum attempt / 2 ≤ retry_delay base maximum attempt event_id)
        × (retry_delay base maximum attempt event_id ≤ capped_exponential base maximum attempt)
        × (retry_delay base maximum attempt event_id ≤ maximum)
  unfolding retry_delay
  retry_delay-bounds attempt event_id =
      let capped = capped_exponential base maximum attempt in
      ground
        (arith, capped_exponential-le attempt, jitter-le (capped - capped / 2) event_id attempt)
