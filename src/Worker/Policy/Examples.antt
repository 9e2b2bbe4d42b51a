-- ===== src/Worker/Policy/Examples.antt =====
-- Retries from one second up to a minute (src/worker/policy.rs).
use silicon_briefcase.Prelude.{◌+◌, ◌/◌, ◌*◌, ◌^◌, ◌≤◌, ◌≡◌, arith}
use silicon_briefcase.Worker.Policy.{Duration, duration_min, capped_exponential, retry_delay}
use silicon_briefcase.Worker.Policy.Delay.{capped_exponential_lem, retry_delay-bounds}

abbrev second : Duration
second = 1000000000

abbrev minute : Duration
minute = 60000000000

capped_exponential_lem_example :
    capped_exponential second minute (3 + 1) ≡ duration_min (second * 2 ^ 3) minute
capped_exponential_lem_example = capped_exponential_lem second minute (omega arith) 3

retry_delay-bounds_example :
    (capped_exponential second minute 4 / 2 ≤ retry_delay second minute 4 77)
    × (retry_delay second minute 4 77 ≤ capped_exponential second minute 4)
    × (retry_delay second minute 4 77 ≤ minute)
retry_delay-bounds_example = retry_delay-bounds second minute (omega arith) 4 77
