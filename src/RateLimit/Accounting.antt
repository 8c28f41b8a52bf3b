-- ===== src/RateLimit/Accounting.antt =====
-- Nothing that src/pwf_rate_limit.c leaves out of the log goes uncounted.
use tinypipewire.Common.{ℕ, ◌+◌, ◌<◌, ◌^◌, ◌≡◌, List, [], ◌∷◌, none, some, arith, length}
use tinypipewire.RateLimit.{RateState, report}

-- A run of occurrences: the number of log lines, the sum of the counts in them, the final state.
pub record Tally : Type 0 where
  pub lines : ℕ
  pub counted : ℕ
  pub left : RateState

pub tally : RateState → List ℕ → Tally
unfolding report
tally s [] = record { lines = 0; counted = 0; left = s }
tally s (now ∷ times) =
    let (line, t) = report s now in
    let rest = tally t times in
    elim line [
      | none ↦ rest
      | some n ↦ record rest { lines = rest.lines + 1; counted = rest.counted + n }
    ]

-- Every occurrence is logged, or counted in a later log line, or still in the count that the next
-- line will carry, unless the 64-bit count wraps.
pub tally_accounts :
    (s : RateState) (times : List ℕ)
    → s.suppressed + length times < 2 ^ 64
    → (tally s times).lines + (tally s times).counted + (tally s times).left.suppressed
      ≡ s.suppressed + length times
unfolding tally
tally_accounts s [] h = omega arith
tally_accounts s (now ∷ times) h = ground (arith, tally_accounts (report s now).1 times)
