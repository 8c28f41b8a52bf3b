-- ===== src/Core/Lifetime.antt =====
-- That a connection of src/pwf_pw_core.c, whole or half made, is taken down again, that the loop lock
-- is given back, and when the process-wide initialiser runs.
use tinypipewire.Common.{
  ℕ, zero, suc, ◌-◌, ◌≡◌, refl, Bool, true, false, not, ◌&&◌, List, [], ◌∷◌, ◌++◌, arith, ltb,
  if◌then◌else◌,
}
use tinypipewire.Common.Int.{ℤ, pos, negsuc}
use tinypipewire.Wait.{Waits, handle_all, delivered, await-delivered}
use tinypipewire.Core.{
  Conn, ConnectEnv, CoreCall, lock, unlock, loop_stop, core_disconnect, context_destroy,
  loop_destroy, core_connect, core_teardown, round_trip, connect_steps, on_event, CoreEvent, done,
  error, GlobalCall, pw_init, pw_deinit, global_init, global_deinit,
}

-- Whether the loop lock is held after the calls.
unfoldable pub held : Bool → List CoreCall → Bool
held b [] = b
held b (lock ∷ calls) = held true calls
held b (unlock ∷ calls) = held false calls
held b (c ∷ calls) = held b calls

handle_all-keeps :
    (events : List CoreEvent) (c : Conn)
    → let c' = handle_all on_event c events in
      (c'.loop ≡ c.loop) × (c'.context ≡ c.context) × (c'.core ≡ c.core)
unfolding handle_all on_event
handle_all-keeps [] c = (refl, refl, refl)
handle_all-keeps (done is_core seq ∷ events) c =
    ground (arith, handle_all-keeps events (on_event c (done is_core seq)))
handle_all-keeps (error res ∷ events) c =
    ground (arith, handle_all-keeps events (on_event c (error res)))

pub round_trip-keeps :
    (c : Conn) (seq : ℕ) (r : ℤ) (waits : Waits CoreEvent)
    → let c' = round_trip c seq r waits in
      (c'.loop ≡ c.loop) × (c'.context ≡ c.context) × (c'.core ≡ c.core)
unfolding round_trip
round_trip-keeps c seq r waits =
    let asked = record c { pending_seq = seq; sync_done = false; connect_result = pos 0 } in
    ground (
      arith,
      await-delivered on_event (λ (s : Conn). s.sync_done) asked waits,
      handle_all-keeps (delivered on_event (λ (s : Conn). s.sync_done) asked waits) asked,
    )

-- What the two report together: the lock is given back, a failed step is a failure, nothing is left,
-- and what goes is what was made.
abbrev pub Undone : Bool → Bool → Bool → Bool → Conn × ℤ × List CoreCall → Type 0
Undone loop_new loop_start context_new context_connect (conn, result, calls) =
    let (gone, down) = core_teardown conn in
    let context = loop_start && context_new in
    let core = context && context_connect in
    (held false calls ≡ false)
    × ((loop_new && core) ≡ false → result ≡ negsuc 0)
    × ((gone.loop ≡ false) × (gone.context ≡ false) × (gone.core ≡ false))
    × (down ≡ (
        if loop_new
        then loop_stop ∷ (if core then core_disconnect ∷ [] else [])
          ++ (if context then context_destroy ∷ [] else [])
          ++ loop_destroy ∷ []
        else []))

module _ (conn : Conn) (env : ConnectEnv) (no_loop : conn.loop ≡ false)
    (no_context : conn.context ≡ false) (no_core : conn.core ≡ false) where
  steps-Undone : (a b c d : Bool) → Undone a b c d (connect_steps a b c d conn env)
  unfolding connect_steps core_teardown held
  steps-Undone false b c d = ground arith
  steps-Undone true false c d = ground arith
  steps-Undone true true false d = ground arith
  steps-Undone true true true false = ground arith
  steps-Undone true true true true =
      let up = record conn { loop = true; context = true; core = true } in
      ground (arith, round_trip-keeps up env.seq (negsuc 0) env.waits)

  -- However far connecting a zeroed connection gets, the loop lock is not held afterwards, a failure
  -- of any of the four first steps is reported, and tearing the connection down leaves nothing and
  -- destroys exactly what was made: the loop is stopped first, and destroyed last.
  pub core_connect-core_teardown :
      Undone env.loop_new env.loop_start env.context_new env.context_connect (core_connect conn env)
  unfolding core_connect
  core_connect-core_teardown =
      steps-Undone env.loop_new env.loop_start env.context_new env.context_connect

-- Clients that come (`true`) and go (`false`), on the count, with the calls made.
pub run_clients : ℤ → List Bool → ℤ × List GlobalCall
run_clients n [] = (n, [])
run_clients n (true ∷ ops) =
    let (n', calls) = global_init n in let (m, rest) = run_clients n' ops in (m, calls ++ rest)
run_clients n (false ∷ ops) =
    let (n', calls) = global_deinit n in let (m, rest) = run_clients n' ops in (m, calls ++ rest)

-- The number of clients after each operation, if none goes that is not there.
pub clients_after : ℕ → List Bool → ℕ
clients_after n [] = n
clients_after n (true ∷ ops) = clients_after (suc n) ops
clients_after n (false ∷ ops) = clients_after (n - 1) ops

-- No client goes that is not there.
abbrev pub Paired : ℕ → List Bool → Type 0
Paired n [] = Unit {0}
Paired n (true ∷ ops) = Paired (suc n) ops
Paired zero (false ∷ ops) = ⊥
Paired (suc n) (false ∷ ops) = Paired n ops

-- The calls alternate, `pw_init` first unless the library is up, and leave it up or down.
pub alternates : Bool → List GlobalCall → Bool → Bool
alternates up [] after = if up then after else not after
alternates up (pw_init ∷ calls) after = not up && alternates true calls after
alternates up (pw_deinit ∷ calls) after = up && alternates false calls after

-- In every history in which each destruction follows its creation, PipeWire is initialised when the
-- first client comes and only then, and shut down when the last one goes and only then: the calls
-- alternate, and PipeWire is up afterwards exactly if clients are left, whose number is the count.
pub run_clients-alternates :
    (n : ℕ) (ops : List Bool)
    → Paired n ops
    → let (count, calls) = run_clients (pos n) ops in
      (count ≡ pos (clients_after n ops))
      × (alternates (ltb 0 n) calls (ltb 0 (clients_after n ops)) ≡ true)
unfolding run_clients alternates clients_after global_init global_deinit
run_clients-alternates n [] p = ground arith
run_clients-alternates n (true ∷ ops) p = ground (arith, run_clients-alternates (suc n) ops p)
run_clients-alternates zero (false ∷ ops) p = absurd p
run_clients-alternates (suc n) (false ∷ ops) p = ground (arith, run_clients-alternates n ops p)
