-- ===== src/Limits/Clock.antt =====
-- The time of agent/limits.py. `time.monotonic()` is a number of clock ticks, a million to the
-- second; the constants in seconds are multiples of it.
use ai_advent_challenge_9_v.Prelude.{ℕ, ◌+◌, ◌*◌, ◌/◌, ◌≤◌, ◌<◌, arith}

abbrev pub second : ℕ
second = 1000000

-- `math.ceil` of a duration, in whole seconds.
abbrev pub ceil_seconds : ℕ → ℕ
ceil_seconds d = (d + 999999) / second

pub ceil_seconds_covers : (d : ℕ) → d ≤ ceil_seconds d * second
ceil_seconds_covers d = omega arith

pub ceil_seconds_tight : (d : ℕ) → ceil_seconds d * second < d + second
ceil_seconds_tight d = omega arith
