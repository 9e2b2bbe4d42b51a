-- ===== src/Worker/Policy.antt =====
-- src/worker/policy.rs: retry delays and topics. A `Duration` is its number of nanoseconds, of which
-- it holds fewer than `duration_mod`.
pub mod Delay
mod Examples
use silicon_briefcase.Prelude.{
  ℕ, zero, suc, ◌+◌, ◌-◌, ◌*◌, ◌/◌, ◌%◌, Bool, leb, ltb, ◌==◌, if◌then◌else◌, u64_mod,
  saturating_sub,
}
use silicon_briefcase.Text.{Str, codes, str_eq}

abbrev domain_events_topic : Str
domain_events_topic = codes "briefcase.domain-events.v1"

data DeliveryFailure : Type 0 where
  external_dispatcher_unconfigured unsupported_topic : DeliveryFailure

-- `DeliveryFailure::code`.
unfoldable failure_code : DeliveryFailure → Str
failure_code external_dispatcher_unconfigured = codes "external_dispatch_unconfigured"
failure_code unsupported_topic = codes "unsupported_outbox_topic"

unfoldable classify_topic : Str → DeliveryFailure
classify_topic topic =
    if str_eq topic domain_events_topic then external_dispatcher_unconfigured else unsupported_topic

unfoldable should_dead_letter : ℕ → ℕ → Bool
should_dead_letter attempt maximum_attempts = leb maximum_attempts attempt

abbrev pub Duration : Type 0
Duration = ℕ

-- `Duration::MAX` is one nanosecond less.
abbrev pub duration_mod : ℕ
duration_mod = u64_mod * 1000000000

-- The saturating operations of `Duration`.
abbrev pub duration_min : Duration → Duration → Duration
duration_min a b = if leb a b then a else b

abbrev pub duration_add : Duration → Duration → Duration
duration_add a b = if ltb (a + b) duration_mod then a + b else duration_mod - 1

abbrev pub duration_mul : Duration → ℕ → Duration
duration_mul a n = if ltb (a * n) duration_mod then a * n else duration_mod - 1

abbrev pub as_millis : Duration → ℕ
as_millis d = d / 1000000

abbrev pub from_millis : ℕ → Duration
from_millis n = n * 1000000

-- The rounds of the loop that are left, and the delay before them.
unfoldable pub double_capped : Duration → ℕ → Duration → Duration
double_capped maximum zero delay = delay
double_capped maximum (suc rounds) delay =
    let doubled = double_capped maximum rounds (duration_min (duration_mul delay 2) maximum) in
    if delay == maximum then delay else doubled

unfoldable pub capped_exponential : Duration → Duration → ℕ → Duration
unfolding double_capped
capped_exponential base maximum attempt =
    double_capped maximum (attempt - 1) (duration_min base maximum)

abbrev pub u128_mod : ℕ
u128_mod = u64_mod * u64_mod

abbrev golden_gamma : ℕ
golden_gamma = 0x9e3779b97f4a7c15

-- The exclusive or of two numbers of a width in bits.
unfoldable pub xor_bits : ℕ → ℕ → ℕ → ℕ
xor_bits zero a b = 0
xor_bits (suc width) a b = (a % 2 + b % 2) % 2 + 2 * xor_bits width (a / 2) (b / 2)

-- The milliseconds that the event and the attempt choose, up to the window.
unfoldable pub jitter_offset : ℕ → ℕ → ℕ → ℕ
jitter_offset window_millis event_id attempt =
    let attempt_seed = (attempt * golden_gamma) % u128_mod in
    let seed = xor_bits 128 event_id attempt_seed in
    let modulus = if ltb (window_millis + 1) u128_mod then window_millis + 1 else u128_mod - 1 in
    seed % modulus

-- An event is its 128-bit UUID. An offset that is no `u64` becomes the whole window.
unfoldable pub jitter : Duration → ℕ → ℕ → Duration
unfolding jitter_offset
jitter window event_id attempt =
    let offset = jitter_offset (as_millis window) event_id attempt in
    if as_millis window == 0 then 0 else if ltb offset u64_mod then from_millis offset else window

-- Between half and all of the capped delay.
unfoldable pub retry_delay : Duration → Duration → ℕ → ℕ → Duration
unfolding capped_exponential jitter
retry_delay base maximum attempt event_id =
    let capped = capped_exponential base maximum attempt in
    let floor = capped / 2 in
    let window = saturating_sub capped floor in
    duration_min (duration_add floor (jitter window event_id attempt)) maximum
