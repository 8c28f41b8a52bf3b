-- ===== src/RateLimit/Tests.antt =====
-- The theorems on src/pwf_rate_limit.c at four occurrences of one condition.
use tinypipewire.Common.{ℕ, ◌+◌, ◌≡◌, List, [], ◌∷◌, length, arith}
use tinypipewire.RateLimit.{RateState}
use tinypipewire.RateLimit.Spacing.{logged_times-Spaced, logged_times, Spaced}
use tinypipewire.RateLimit.Accounting.{tally_accounts, tally}

abbrev logged_once : RateState
logged_once = record { last_log_ns = 5; suppressed = 1 }

abbrev four_times : List ℕ
four_times = 10 ∷ 20 ∷ 1_000_000_100 ∷ 3_000_000_000 ∷ []

logged_times-Spaced_example : Spaced logged_once.last_log_ns (logged_times logged_once four_times)
logged_times-Spaced_example =
    logged_times-Spaced logged_once four_times (omega arith) (ground arith)

tally_accounts_example :
    (tally logged_once four_times).lines
      + (tally logged_once four_times).counted
      + (tally logged_once four_times).left.suppressed
    ≡ logged_once.suppressed + length four_times
tally_accounts_example = tally_accounts logged_once four_times (omega arith)
