-- ===== src/Core/Opened.antt =====
-- What creating a stream or a filter leaves of the process-wide count and of the connection: the part that
-- src/pwf_stream.c and src/pwf_filter.c share.
use tinypipewire.Common.{
  ℕ, ◌+◌, ◌≡◌, ◌⊎◌, refl, Bool, true, false, Option, none, some, is_some, ◌∙◌, List, [], ◌∷◌, ◌++◌,
  ◌==◌, if◌then◌else◌, arith,
}
use tinypipewire.Common.Int.{ℤ, pos, negsuc, is_negative}
use tinypipewire.Core.{
  Conn, ConnectEnv, CoreCall, lock, unlock, add_listener, remove_listener, sync, loop_stop,
  core_disconnect, context_destroy, loop_destroy, connect_steps, GlobalCall, pw_init, pw_deinit,
  core_connect, core_teardown, global_init, global_deinit,
}
use tinypipewire.Core.Lifetime.{held, round_trip-keeps}

-- `calloc`: nothing is connected.
abbrev pub zeroed : Conn
zeroed = record {
  loop = false;
  context = false;
  core = false;
  pending_seq = 0;
  connect_result = pos 0;
  sync_done = false;
}

-- The handle, if there is one, the count, the calls that initialise and shut down PipeWire, those on the
-- connection, and the connection as it was last.
pub record Opened (A : Type 0) : Type 0 where
  pub handle : Option A
  pub count : ℤ
  pub globals : List GlobalCall
  pub calls : List CoreCall
  pub last : Conn

-- `pwf_pw_global_deinit` after `pwf_pw_global_init`, with what was called on the connection in between.
unfoldable pub give_up : {A : Type 0} → ℤ → List CoreCall → Conn → Opened A
give_up count calls last =
    let up = global_init count in
    let down = global_deinit up.0 in
    record { handle = none; count = down.0; globals = up.1 ++ down.1; calls = calls; last = last }

-- The connection is torn down after the calls.
unfoldable pub tear_down : {A : Type 0} → ℤ → List CoreCall → Conn → Opened A
tear_down count calls conn = let down = core_teardown conn in give_up count (calls ++ down.1) down.0

unfoldable pub succeed : {A : Type 0} → ℤ → List CoreCall → Conn → A → Opened A
succeed count calls last a =
    let up = global_init count in
    record { handle = some a; count = up.0; globals = up.1; calls = calls; last = last }

-- PipeWire is initialised where there was no client, and where it is given up again it is shut down again.
abbrev pub init_calls : ℕ → List GlobalCall
init_calls n = if n == 0 then pw_init ∷ [] else []

abbrev pub deinit_calls : ℕ → List GlobalCall
deinit_calls n = if n == 0 then pw_deinit ∷ [] else []

-- Nothing of the connection is there.
abbrev pub IsDown : Conn → Type 0
IsDown conn = (conn.loop ≡ false) × (conn.context ≡ false) × (conn.core ≡ false)

-- All of it is there.
abbrev pub IsUp : Conn → Type 0
IsUp conn = (conn.loop ≡ true) × (conn.context ≡ true) × (conn.core ≡ true)

-- What creating leaves. In both cases the loop lock is free. Either there is no handle, nothing of the
-- connection is left, the count is the old one, and PipeWire is shut down if it was initialised; or there is
-- a handle, the connection is up, there is one client more, and PipeWire is initialised if that is the first.
abbrev pub IsBalanced : {A : Type 0} → ℕ → Opened A → Type 0
IsBalanced n o =
    (held false o.calls ≡ false)
    × (((o.handle ≡ none)
          × IsDown o.last
          × (o.count ≡ pos n)
          × (o.globals ≡ init_calls n ++ deinit_calls n))
        ⊎ ((is_some o.handle ≡ true)
            × IsUp o.last
            × (o.count ≡ pos (n + 1))
            × (o.globals ≡ init_calls n)))

pub held-append : (b : Bool) (xs ys : List CoreCall) → held b (xs ++ ys) ≡ held (held b xs) ys
unfolding held
held-append b [] ys = refl
held-append b (lock ∷ xs) ys = held-append true xs ys
held-append b (unlock ∷ xs) ys = held-append false xs ys
held-append b (add_listener ∷ xs) ys = held-append b xs ys
held-append b (remove_listener ∷ xs) ys = held-append b xs ys
held-append b (sync ∷ xs) ys = held-append b xs ys
held-append b (loop_stop ∷ xs) ys = held-append b xs ys
held-append b (core_disconnect ∷ xs) ys = held-append b xs ys
held-append b (context_destroy ∷ xs) ys = held-append b xs ys
held-append b (loop_destroy ∷ xs) ys = held-append b xs ys

module _ {A : Type 0} (n : ℕ) where
  pub give_up-IsBalanced :
      (calls : List CoreCall) (last : Conn)
      → held false calls ≡ false
      → IsDown last
      → IsBalanced n (give_up {A = A} (pos n) calls last)
  unfolding give_up global_init global_deinit
  give_up-IsBalanced calls last h d = ground arith

  pub tear_down-IsBalanced :
      (calls : List CoreCall) (conn : Conn)
      → held false calls ≡ false
      → IsBalanced n (tear_down {A = A} (pos n) calls conn)
  unfolding tear_down core_teardown held
  tear_down-IsBalanced calls conn h =
      let down = core_teardown conn in
      give_up-IsBalanced (calls ++ down.1) down.0
        (held-append false calls down.1 ∙ ground (arith, h)) (refl, refl, refl)

  pub succeed-IsBalanced :
      (calls : List CoreCall) (last : Conn) (a : A)
      → held false calls ≡ false
      → IsUp last
      → IsBalanced n (succeed (pos n) calls last a)
  unfolding succeed global_init
  succeed-IsBalanced calls last a h u = ground arith

connect_steps-IsUp :
    (a b c d : Bool) (env : ConnectEnv)
    → let (conn, result, calls) = connect_steps a b c d zeroed env in
      (held false calls ≡ false) × (is_negative result ≡ false → IsUp conn)
unfolding connect_steps held
connect_steps-IsUp false b c d env = ground arith
connect_steps-IsUp true false c d env = ground arith
connect_steps-IsUp true true false d env = ground arith
connect_steps-IsUp true true true false env = ground arith
connect_steps-IsUp true true true true env =
    let up = record zeroed { loop = true; context = true; core = true } in
    ground (arith, round_trip-keeps up env.seq (negsuc 0) env.waits)

-- Connecting a zeroed connection gives the lock back, and where it succeeds all of it is there.
pub core_connect-IsUp :
    (env : ConnectEnv)
    → let (conn, result, calls) = core_connect zeroed env in
      (held false calls ≡ false) × (is_negative result ≡ false → IsUp conn)
unfolding core_connect
core_connect-IsUp env =
    connect_steps-IsUp env.loop_new env.loop_start env.context_new env.context_connect env
