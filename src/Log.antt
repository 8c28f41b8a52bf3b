-- ===== src/Log.antt =====
-- src/pwf_log.c: which lines are logged, and how they begin.
pub mod Basename
use Prim.Native.Char.{Char, code}
use Prim.Native.String
use tinypipewire.Common.{ℕ, Bool, true, false, Option, none, some, String, leb, ◌==◌, if◌then◌else◌}

-- `enum pwf_log_level`
pub data LogLevel : Type 0 where
  error warning info debug verbose : LogLevel

abbrev pub severity : LogLevel → ℕ
severity error = 0
severity warning = 1
severity info = 2
severity debug = 3
severity verbose = 4

-- `g_callback` with its `g_user_data` as one address, and `g_level`
pub record LogState : Type 0 where
  pub callback : Option ℕ
  pub level : LogLevel

-- How they start
abbrev pub quiet : LogState
quiet = record { callback = none; level = warning }

-- `pwf_log_set_callback` and `pwf_log_set_level`
unfoldable pub set_callback : Option ℕ → LogState → LogState
set_callback callback s = record s { callback = callback }

unfoldable pub set_level : LogLevel → LogState → LogState
set_level level s = record s { level = level }

-- `pwf_log_level_name`
unfoldable pub level_name : LogLevel → String
level_name error = "error"
level_name warning = "warning"
level_name info = "info"
level_name debug = "debug"
level_name verbose = "verbose"

-- `strrchr(path, '/')`: what stands after the last slash
unfoldable pub after_slash : String → Option String
after_slash String.[] = none
after_slash (String.◌∷◌ c s) = elim (after_slash s) [
  | none ↦ if code c == 47 then some s else none
  | some rest ↦ some rest
]

-- `pwf_log_basename`
unfoldable pub basename : String → String
unfolding after_slash
basename path = elim (after_slash path) [ none ↦ path | some rest ↦ rest ]

-- Where a line goes: to the callback at an address, or to stderr with the level's name.
pub data LogLine : Type 0 where
  to_callback : ℕ → LogLevel → String → ℕ → String → LogLine
  to_stderr : String → String → ℕ → String → LogLine

-- `pwf_log_emit`; `clip` is what `vsnprintf` leaves of a message in an array of that many places.
unfoldable pub emit :
    (ℕ → String → String) → LogState → LogLevel → String → ℕ → String → Option LogLine
unfolding level_name basename
emit clip s level file line text =
    let message = clip 512 text in
    if leb (severity level) (severity s.level)
    then some (elim s.callback [
      | none ↦ to_stderr (level_name level) (basename file) line message
      | some f ↦ to_callback f level (basename file) line message
    ])
    else none
