-- ===== src/RateLimit/Spacing.antt =====
-- How far apart the log lines of src/pwf_rate_limit.c are.
use tinypipewire.Common.{ℕ, ◌+◌, ◌≤◌, ◌<◌, ◌^◌, List, [], ◌∷◌, arith, if◌then◌else◌}
use tinypipewire.RateLimit.{RateState, rate_limited, log_interval_ns}

-- The times at which a condition that occurs at the given times is logged.
pub logged_times : RateState → List ℕ → List ℕ
unfolding rate_limited
logged_times s [] = []
logged_times s (now ∷ times) =
    let (logged, t) = rate_limited s now in
    let rest = logged_times t times in if logged then now ∷ rest else rest

-- Times of a monotonic clock from `from` on: they do not fall, and fit the word.
abbrev pub Monotonic : ℕ → List ℕ → Type 0
Monotonic from [] = Unit {0}
Monotonic from (now ∷ times) = (from ≤ now) × (now < 2 ^ 64) × Monotonic now times

-- Each time is at least one interval after the one before it, the first after `last`.
abbrev pub Spaced : ℕ → List ℕ → Type 0
Spaced last [] = Unit {0}
Spaced last (now ∷ times) = (last + log_interval_ns ≤ now) × Spaced now times

Spaced-after :
    (s : RateState) (from : ℕ) (times : List ℕ)
    → 0 < s.last_log_ns
    → s.last_log_ns ≤ from
    → Monotonic from times
    → Spaced s.last_log_ns (logged_times s times)
unfolding logged_times
Spaced-after s from [] p h m = tt
Spaced-after s from (now ∷ times) p h m =
    ground (arith, Spaced-after (rate_limited s now).1 now times)

-- Two log lines of one condition are never closer than the interval, whatever the times at which the
-- condition occurs, once it has been logged at a time other than zero and as long as the clock does
-- not go back.
pub logged_times-Spaced :
    (s : RateState) (times : List ℕ)
    → 0 < s.last_log_ns
    → Monotonic s.last_log_ns times
    → Spaced s.last_log_ns (logged_times s times)
logged_times-Spaced s times p m = Spaced-after s s.last_log_ns times p (omega arith) m
