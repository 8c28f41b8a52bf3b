-- ===== src/Filter/Lifecycle/Tests.antt =====
-- The theorems on a filter's life at one that is created, gets ports, is started and is stopped.
use tinypipewire.Common.{◌≡◌, refl, Bool, true, false, none, some, List, map, [], ◌∷◌, All, arith}
use tinypipewire.Common.Int.{ℤ, pos}
use tinypipewire.Wait.{Waits}
use tinypipewire.Core.{ConnectEnv, Conn, done}
use tinypipewire.Core.Opened.{zeroed, IsBalanced}
use tinypipewire.Stream.State.{Caller}
use tinypipewire.Filter.State.{PortDirection}
use tinypipewire.Filter.Link.{FilterPort}
use tinypipewire.Filter.Ports.{Filter, FilterState, Adding, add_signal_port}
use tinypipewire.Filter.Session.{Creating, fresh_filter, filter_create}
use tinypipewire.Filter.Session.Balanced.{filter_create-IsBalanced}
use tinypipewire.Filter.Lifecycle.{
  filter_refuse_in_callback, FilterEvent, drained, cycled, filter_start, filter_stop,
}
use tinypipewire.Filter.Lifecycle.Sound.{
  KeepsKinds, AllSameKind, here, next, signal_port, starting, stopping, IsSound,
}
use tinypipewire.Filter.Lifecycle.Sound.Kept.{Reach-IsSound}

-- A server that answers.
abbrev working : ConnectEnv
working = record {
  loop_new = true;
  loop_start = true;
  context_new = true;
  context_connect = true;
  seq = 5;
  waits = record { woken = (done true 5 ∷ []) ∷ []; late = [] };
}

abbrev all_there : Creating
all_there = record { allocated = true; name_copied = true; core = working; made = true }

abbrev up : Conn
up = record zeroed { loop = true; context = true; core = true }

abbrev fresh : Filter
fresh = fresh_filter none up true

fresh-IsSound : IsSound fresh
fresh-IsSound = record { ports = tt; room = omega arith }

abbrev adding : Adding
adding = record { properties = true; added = true; realloc = λ n. true }

abbrev outside : Caller
outside = record { in_callback = false; on_loop_thread = false }

abbrev same_int : ℤ → ℤ → Bool
same_int a b = true

-- After a cycle that leaves the ports as they are, the filter drains before the deadline.
abbrev drains : Waits FilterEvent
drains = record { woken = (cycled (map (λ p. p.io)) ∷ []) ∷ (drained ∷ []) ∷ []; late = [] }

unchanged-AllSameKind : (ports : List FilterPort) → AllSameKind ports (map (λ p. p.io) ports)
unchanged-AllSameKind [] = tt
unchanged-AllSameKind (p ∷ ports) = ((refl, refl, refl), unchanged-AllSameKind ports)

drains-KeepsKinds : All (λ batch. All KeepsKinds batch) drains.woken
drains-KeepsKinds = ((unchanged-AllSameKind, tt), ((tt, tt), tt))

abbrev with_port : Filter
with_port = (add_signal_port adding PortDirection.input fresh).1

abbrev started : Filter
started = (filter_start outside (pos 0) with_port).filter

abbrev at_rest : Filter
at_rest = (filter_stop same_int outside true drains started).filter

started_up : started.conn.loop ≡ true
unfolding filter_start filter_refuse_in_callback add_signal_port tinypipewire.Filter.Ports.add_port
    tinypipewire.Filter.Ports.add_port_to_list tinypipewire.Filter.Event.grown
started_up = refl

Reach-IsSound_example : IsSound at_rest
Reach-IsSound_example = Reach-IsSound fresh-IsSound (
    next
      (next (next here (signal_port fresh adding PortDirection.input))
        (starting with_port outside (pos 0)))
      (stopping started same_int outside true drains started_up drains-KeepsKinds tt))

filter_create-IsBalanced_example : IsBalanced 2 (filter_create all_there (some "echo") (pos 2))
filter_create-IsBalanced_example = filter_create-IsBalanced all_there (some "echo") 2
