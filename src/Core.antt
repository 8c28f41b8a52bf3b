-- ===== src/Core.antt =====
-- The connection part of src/pwf_pw_core.c: the process-wide count of clients, connecting a core on
-- its own thread loop, one bounded round-trip to the server, and the teardown.
mod Tests
pub mod Sync
pub mod Lifetime
pub mod Opened
use tinypipewire.Common.{
  ℕ, suc, ◌+◌, ◌-◌, Bool, true, false, not, ◌&&◌, ◌||◌, List, [], ◌∷◌, ◌++◌, ◌==◌, if◌then◌else◌,
  Option, none, some,
}
use tinypipewire.Common.Int.{ℤ, pos, negsuc, ◌+ℤ◌, is_negative}
use tinypipewire.Types.{Code, connect_failed, timeout}
use tinypipewire.Wait.{Waits, await}

-- `struct pwf_pw_core_conn`; a pointer is present or null.
pub record Conn : Type 0 where
  pub loop : Bool
  pub context : Bool
  pub core : Bool
  pub pending_seq : ℕ
  pub connect_result : ℤ
  pub sync_done : Bool

-- What the core tells its listener: `done id seq`, with whether the id is PW_ID_CORE, and `error res`.
pub data CoreEvent : Type 0 where
  done : Bool → ℕ → CoreEvent
  error : ℤ → CoreEvent

-- The calls that are made of PipeWire.
pub data CoreCall : Type 0 where
  lock unlock add_listener remove_listener sync : CoreCall
  loop_stop core_disconnect context_destroy loop_destroy : CoreCall

-- `pwf_pw_core_on_done` and `pwf_pw_core_on_error`
unfoldable pub on_event : Conn → CoreEvent → Conn
on_event conn (done is_core seq) =
    if is_core && seq == conn.pending_seq then record conn { sync_done = true } else conn
on_event conn (error res) = record conn {
  connect_result = if is_negative res then res else negsuc 0;
  sync_done = true;
}

-- The wait that both round-trips make, with what the result becomes at the deadline.
pub round_trip : Conn → ℕ → ℤ → Waits CoreEvent → Conn
unfolding on_event await
round_trip conn seq at_deadline waits =
    let asked = record conn { pending_seq = seq; sync_done = false; connect_result = pos 0 } in
    let (conn', late) = await on_event (λ c. c.sync_done) asked waits in
    if late then record conn' { connect_result = at_deadline } else conn'

-- `pwf_pw_core_sync_locked`: the number is `ETIMEDOUT`, the sequence number is what `pw_core_sync`
-- returns. The result is the connection's `connect_result`.
unfoldable pub sync_locked : ℕ → Conn → ℕ → Waits CoreEvent → Conn
unfolding round_trip
sync_locked etimedout conn seq waits = round_trip conn seq (negsuc (etimedout - 1)) waits

-- `pwf_pw_error_from_sync`
unfoldable pub error_from_sync : ℕ → ℤ → Code
error_from_sync etimedout (pos n) = connect_failed
error_from_sync etimedout (negsuc n) = if n + 1 == etimedout then timeout else connect_failed

-- What PipeWire returns to `pwf_pw_core_connect`: which of its calls succeed, the sequence number of
-- the round-trip, and what arrives while it waits.
pub record ConnectEnv : Type 0 where
  pub loop_new : Bool
  pub loop_start : Bool
  pub context_new : Bool
  pub context_connect : Bool
  pub seq : ℕ
  pub waits : Waits CoreEvent

-- The steps of `pwf_pw_core_connect`, by whether `pw_thread_loop_new`, `pw_thread_loop_start`,
-- `pw_context_new` and `pw_context_connect` succeed.
connect_steps : Bool → Bool → Bool → Bool → Conn → ConnectEnv → Conn × ℤ × List CoreCall
unfolding round_trip
connect_steps false start context core conn env = (record conn { loop = false }, negsuc 0, [])
connect_steps true false context core conn env = (record conn { loop = true }, negsuc 0, [])
connect_steps true true false core conn env =
    (record conn { loop = true; context = false }, negsuc 0, lock ∷ unlock ∷ [])
connect_steps true true true false conn env =
    (record conn { loop = true; context = true; core = false }, negsuc 0, lock ∷ unlock ∷ [])
connect_steps true true true true conn env =
    let up = record conn { loop = true; context = true; core = true } in
    let conn' = round_trip up env.seq (negsuc 0) env.waits in
    (conn', conn'.connect_result, lock ∷ add_listener ∷ sync ∷ remove_listener ∷ unlock ∷ [])

-- `pwf_pw_core_connect`: the connection, the result and the calls made on the way.
unfoldable pub core_connect : Conn → ConnectEnv → Conn × ℤ × List CoreCall
unfolding connect_steps
core_connect conn env =
    connect_steps env.loop_new env.loop_start env.context_new env.context_connect conn env

-- `pwf_pw_core_teardown`
unfoldable pub core_teardown : Conn → Conn × List CoreCall
core_teardown conn = (
  record conn { loop = false; context = false; core = false },
  (if conn.loop then loop_stop ∷ [] else [])
      ++ (if conn.core then core_disconnect ∷ [] else [])
      ++ (if conn.context then context_destroy ∷ [] else [])
      ++ (if conn.loop then loop_destroy ∷ [] else []),
)

-- The calls of the process-wide initialiser.
pub data GlobalCall : Type 0 where
  pw_init pw_deinit : GlobalCall

-- `pwf_pw_global_init` and `pwf_pw_global_deinit` on `g_pw_init_count`
unfoldable pub global_init : ℤ → ℤ × List GlobalCall
unfolding ◌+ℤ◌
global_init (pos n) = (pos (n + 1), if n == 0 then pw_init ∷ [] else [])
global_init (negsuc n) = (negsuc n +ℤ pos 1, [])

unfoldable pub global_deinit : ℤ → ℤ × List GlobalCall
unfolding ◌+ℤ◌
global_deinit (pos n) = (pos n +ℤ negsuc 0, if n == 1 then pw_deinit ∷ [] else [])
global_deinit (negsuc n) = (negsuc n +ℤ negsuc 0, [])
