-- ===== src/Filter/Process/Staged.antt =====
-- Input event ports: what is pushed is delivered by the next cycle that gets the push lock, once, in
-- order and unchanged.
use tinypipewire.Common.{ℕ, Bool, false, Option, List, [], ◌∷◌}
use tinypipewire.Types.{DataType, PwBuffer}
use tinypipewire.Filter.State.{Port, PortDirection, Event, PendingEvent}
use tinypipewire.Filter.Event.{PropIds, Builder, Control}
use tinypipewire.Filter.Process.{acquire, release}

-- What the push lock guards of an input event port, with its kind.
abbrev Staged : Type 0
Staged = (DataType × PortDirection) × List PendingEvent

abbrev staged_of : Port → Staged
staged_of port = ((port.media_type, port.direction), port.pending_events)

module _ (ids : PropIds) (b : Builder) (parse : List ℕ → ℕ → Option (List Control)) where
  -- Cycles of a port that do not get the push lock, each with what the allocator does and what the
  -- dequeue would give.
  unfoldable pub missed : Port → List ((ℕ → Bool) × Option PwBuffer) → Port
  missed port [] = port
  missed port ((realloc, dq) ∷ cycles) =
      let a = acquire realloc ids parse false port dq in
      missed (release ids b a.port a.buffer a.dequeued).0 cycles
