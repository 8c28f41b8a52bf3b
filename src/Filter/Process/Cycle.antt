-- ===== src/Filter/Process/Cycle.antt =====
-- `pwf_filter_on_process` as a whole: both loops over a filter's ports and the callback between them.
pub mod Conserved
use tinypipewire.Common.{
  ℕ, zero, suc, ◌+◌, Bool, true, false, not, ◌&&◌, ◌||◌, Option, none, some, List, [], ◌∷◌, length,
  ltb, ◌==◌, if◌then◌else◌,
}
use tinypipewire.Types.{PwBuffer}
use tinypipewire.Filter.State.{Port, PortBuffer}
use tinypipewire.Filter.Event.{PropIds, Control, Builder}
use tinypipewire.Filter.Process.{Acquired, acquire, release}

-- PWF_FILTER_STACK_PORTS
abbrev pub stack_ports : ℕ
stack_ports = 8

-- `process_cb` as the application makes it: from what the first loop leaves of the ports, the port and
-- its buffer at each index.
abbrev pub ProcessCallback : Type 0
ProcessCallback = List Acquired → ℕ → Port × PortBuffer

-- What a cycle leaves of one port: what the first loop made of it, the port at the end, and what the
-- second loop queues back.
pub record PortCycle : Type 0 where
  pub acquired : Acquired
  pub port : Port
  pub queued : List PwBuffer

module _ (realloc : ℕ → Bool) (ids : PropIds) (parse : List ℕ → ℕ → Option (List Control))
    (builder : Builder) where
  -- The first loop, over each port with what `pw_filter_dequeue_buffer` gives for it if it is called.
  unfoldable pub acquire_all : Bool → List (Port × Option PwBuffer) → List Acquired
  acquire_all staged [] = []
  acquire_all staged ((port, dq) ∷ ports) =
      acquire realloc ids parse staged port dq ∷ acquire_all staged ports

  -- The second loop, from index i on.
  unfoldable pub release_all : (ℕ → Port × PortBuffer) → ℕ → List Acquired → List PortCycle
  release_all after i [] = []
  release_all after i (a ∷ acquired) =
      let (port, shown) = after i in
      let (port', queued) = release ids builder port shown a.dequeued in
      record { acquired = a; port = port'; queued = queued } ∷ release_all after (suc i) acquired

  -- `pwf_filter_on_process`: `none` where it returns early. `heap` is whether both allocations for a
  -- filter of many ports succeed, `staged` whether the push lock is got; without a callback the ports
  -- and buffers stay as they are, which is a callback too.
  unfoldable pub filter_on_process :
      ProcessCallback → Bool → Bool → List (Port × Option PwBuffer) → Option (List PortCycle)
  unfolding acquire_all release_all
  filter_on_process cb heap staged ports =
      let acquired = acquire_all staged ports in
      if length ports == 0
      then none
      else if ltb stack_ports (length ports) && not heap
      then none
      else some (release_all (cb acquired) 0 acquired)
