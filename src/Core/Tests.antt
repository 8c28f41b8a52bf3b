-- ===== src/Core/Tests.antt =====
-- The theorems on the connection at concrete histories.
use tinypipewire.Common.{◌≡◌, refl, Bool, true, false, List, [], ◌∷◌, All, ltb}
use tinypipewire.Common.Int.{pos}
use tinypipewire.Wait.{Waits, delivered}
use tinypipewire.Core.{Conn, CoreEvent, done, on_event, sync_locked, ConnectEnv, core_connect}
use tinypipewire.Core.Sync.{sync_locked-answered, Some, is_answer, is_error}
use tinypipewire.Core.Lifetime.{
  core_connect-core_teardown, Undone, run_clients-alternates, run_clients, clients_after,
  alternates,
}

abbrev zeroed : Conn
zeroed = record {
  loop = false;
  context = false;
  core = false;
  pending_seq = 0;
  connect_result = pos 0;
  sync_done = false;
}

-- An answer to an older request, then the one that is waited for.
abbrev answered : Waits CoreEvent
answered = record { woken = (done true 4 ∷ []) ∷ (done true 5 ∷ []) ∷ []; late = [] }

abbrev working : ConnectEnv
working = record {
  loop_new = true;
  loop_start = true;
  context_new = true;
  context_connect = true;
  seq = 5;
  waits = answered;
}

-- Two clients, of which the first goes before the second, and a third.
abbrev three_clients : List Bool
three_clients = true ∷ true ∷ false ∷ false ∷ true ∷ []

sync_locked-answered_example :
    (events : List CoreEvent) × (events
      ≡ delivered on_event
          (λ c. c.sync_done)
          (record zeroed { pending_seq = 5; sync_done = false; connect_result = pos 0 })
          answered)
    × All (λ e. is_error e ≡ false) events
    × Some (is_answer 5) events
unfolding sync_locked
sync_locked-answered_example = sync_locked-answered 110 zeroed 5 answered refl

core_connect-core_teardown_example :
    Undone working.loop_new working.loop_start working.context_new working.context_connect
      (core_connect zeroed working)
core_connect-core_teardown_example = core_connect-core_teardown zeroed working refl refl refl

run_clients-alternates_example :
    let (count, calls) = run_clients (pos 0) three_clients in
    (count ≡ pos (clients_after 0 three_clients))
    × (alternates (ltb 0 0) calls (ltb 0 (clients_after 0 three_clients)) ≡ true)
run_clients-alternates_example = run_clients-alternates 0 three_clients tt
