-- ===== src/RateLimit.antt =====
-- src/pwf_rate_limit.c: at most one log line per interval for a condition that repeats, and the
-- count of those left out.
mod Tests
pub mod Spacing
pub mod Accounting
use tinypipewire.Common.{
  ℕ, ◌+◌, ◌-◌, ◌%◌, ◌^◌, Bool, true, false, not, ◌&&◌, Option, none, some, ltb, ◌==◌, if◌then◌else◌,
}

-- PWF_LOG_INTERVAL_NS
abbrev pub log_interval_ns : ℕ
log_interval_ns = 1_000_000_000

-- The pair of fields that each rate-limited condition keeps.
pub record RateState : Type 0 where
  pub last_log_ns : ℕ
  pub suppressed : ℕ

-- `pwf_rate_limited`; both fields are `uint64_t`, so the difference and the count wrap.
unfoldable pub rate_limited : RateState → ℕ → Bool × RateState
rate_limited s now_ns =
    if not (s.last_log_ns == 0) && ltb ((now_ns + 2 ^ 64 - s.last_log_ns) % 2 ^ 64) log_interval_ns
    then (false, record s { suppressed = (s.suppressed + 1) % 2 ^ 64 })
    else (true, record s { last_log_ns = now_ns })

-- What every caller does with the answer: log the count of those left out and reset it. The option
-- is the count that the log line carries, `none` for no line.
unfoldable pub report : RateState → ℕ → Option ℕ × RateState
unfolding rate_limited
report s now_ns =
    let (logged, t) = rate_limited s now_ns in
    if logged then (some t.suppressed, record t { suppressed = 0 }) else (none, t)

-- `struct pwf_stream` starts zeroed.
abbrev pub fresh : RateState
fresh = record { last_log_ns = 0; suppressed = 0 }
