-- ===== src/Filter/Process/Present.antt =====
-- What an input port for data shows the callback: new data once, and held data as it was.
use tinypipewire.Common.{
  ◌+◌, ◌%◌, ◌^◌, ◌≡◌, refl, Bool, true, false, ◌&&◌, ◌||◌, not, Option, none, some, List, [], ◌∷◌,
  arith, All, if◌then◌else◌,
}
use tinypipewire.Types.{PwBuffer}
use tinypipewire.Filter.State.{Port, PortBuffer}
use tinypipewire.Filter.Process.{
  acquire_input, take_push, take_graph, settle, input_buffer_present, blank,
}

-- Whether the graph gives the port a buffer with data.
abbrev pub has_data : Port → Option PwBuffer → Bool
has_data port none = false
has_data port (some b) = input_buffer_present port b

-- Whether there is new data for the port in the cycle.
abbrev pub news : Bool → Port → Option PwBuffer → Bool
news staged port dq = staged && port.pushed_pending || has_data port dq

-- The buffer that a port shows in a cycle without new data.
abbrev pub quiet_buffer : Port → PortBuffer
quiet_buffer port =
    if port.hold_enabled && port.has_held
    then record blank {
      contents = port.held_data;
      size = port.held_size;
      pts = port.held_pts;
      seq = port.update_seq;
    }
    else record blank { seq = port.update_seq }

-- The buffer is marked fresh exactly in a cycle with new data. The sequence number that it carries is
-- the port's, which such a cycle raises by one, modulo 2^64, and no other cycle changes. Without new
-- data the buffer is the one the port keeps for such cycles (`quiet_buffer`): what is held, or an empty
-- one where nothing is. With hold, a cycle with new data makes that exactly the buffer it shows, except
-- that it is no longer fresh, and a cycle without leaves it as it is. A staged push is consumed, and the
-- graph is left alone in that cycle; otherwise it is asked.
pub acquire_input-fresh :
    (staged : Bool) (port : Port) (dq : Option PwBuffer)
    → let a = acquire_input staged port dq in
      (a.buffer.fresh ≡ news staged port dq)
      × (a.buffer.seq ≡ a.port.update_seq)
      × (a.port.update_seq
          ≡ (if news staged port dq then (port.update_seq + 1) % 2 ^ 64 else port.update_seq))
      × (news staged port dq ≡ false → a.buffer ≡ quiet_buffer port)
      × (news staged port dq ≡ true
          → port.hold_enabled ≡ true
          → quiet_buffer a.port ≡ record a.buffer { fresh = false })
      × (news staged port dq ≡ false → quiet_buffer a.port ≡ quiet_buffer port)
      × (a.asked ≡ not (staged && port.pushed_pending))
      × (a.port.pushed_pending ≡ (port.pushed_pending && not staged))
unfolding acquire_input take_push take_graph settle
acquire_input-fresh staged port none = ground arith
acquire_input-fresh staged port (some b) = ground arith

-- Later cycles of a port, each with whether the push lock was got and what the dequeue would give.
abbrev pub Cycles : Type 0
Cycles = List (Bool × Option PwBuffer)

-- The buffers that they show.
pub shown : Port → Cycles → List PortBuffer
shown port [] = []
shown port ((staged, dq) ∷ cycles) =
    let a = acquire_input staged (record port { current_dmabuf_buf = none }) dq in
    a.buffer ∷ shown a.port cycles

-- The graph gives the port no data in any of them.
abbrev pub AllQuiet : Bool → Cycles → Type 0
AllQuiet dmabuf [] = Unit {0}
AllQuiet dmabuf ((staged, none) ∷ cycles) = AllQuiet dmabuf cycles
AllQuiet dmabuf ((staged, some b) ∷ cycles) =
    ((p : Port) → p.use_dmabuf ≡ dmabuf → input_buffer_present p b ≡ false) × AllQuiet dmabuf cycles

-- What a port that holds a buffer and has nothing pushed keeps through a cycle without new data.
record Holding (first : PortBuffer) (dmabuf : Bool) (port : Port) : Type 0 where
  enabled : port.hold_enabled ≡ true
  retains : port.has_held ≡ true
  unpushed : port.pushed_pending ≡ false
  contents : port.held_data ≡ first.contents
  size : port.held_size ≡ first.size
  pts : port.held_pts ≡ first.pts
  seq : port.update_seq ≡ first.seq
  memory : port.use_dmabuf ≡ dmabuf
  capacity : first.capacity ≡ 0

quiet-Holding :
    (first : PortBuffer) (dmabuf staged : Bool) (port : Port) (dq : Option PwBuffer)
    → Holding first dmabuf port
    → has_data port dq ≡ false
    → let a = acquire_input staged port dq in
      (a.buffer ≡ record first { fresh = false }) × Holding first dmabuf a.port
unfolding acquire_input take_push take_graph settle
quiet-Holding first dmabuf staged port none h q = ground arith
quiet-Holding first dmabuf staged port (some b) h q = ground arith

Holding-shown :
    (first : PortBuffer) (dmabuf : Bool) (cycles : Cycles) (port : Port)
    → Holding first dmabuf port
    → AllQuiet dmabuf cycles
    → All (λ s. s ≡ record first { fresh = false }) (shown port cycles)
unfolding shown
Holding-shown first dmabuf [] port h q = tt
Holding-shown first dmabuf ((staged, none) ∷ cycles) port h q =
    let cleared = record port { current_dmabuf_buf = none } in
    let step = quiet-Holding first dmabuf staged cleared none (ground arith) refl in
    (step.0, Holding-shown first dmabuf cycles _ step.1 q)
Holding-shown first dmabuf ((staged, some b) ∷ cycles) port h q =
    let cleared = record port { current_dmabuf_buf = none } in
    let step =
      quiet-Holding first dmabuf staged cleared (some b) (ground arith) (q.0 cleared h.memory) in
    (step.0, Holding-shown first dmabuf cycles _ step.1 q.1)

new-Holding :
    (staged : Bool) (port : Port) (dq : Option PwBuffer)
    → port.hold_enabled ≡ true
    → news staged port dq ≡ true
    → (port.pushed_pending && not staged) ≡ false
    → let a = acquire_input staged port dq in Holding a.buffer port.use_dmabuf a.port
unfolding acquire_input take_push take_graph settle
new-Holding staged port none on new none_left = ground arith
new-Holding staged port (some b) on new none_left = ground arith

-- Once a port with hold has shown new data, and until more is pushed or the graph gives it data, every
-- later cycle shows the very same buffer, with the same contents, size, timestamp and sequence number,
-- no longer marked fresh, however many cycles there are.
pub held_until_new :
    (staged : Bool) (port : Port) (dq : Option PwBuffer) (cycles : Cycles)
    → port.hold_enabled ≡ true
    → news staged port dq ≡ true
    → (port.pushed_pending && not staged) ≡ false
    → AllQuiet port.use_dmabuf cycles
    → let a = acquire_input staged port dq in
      All (λ s. s ≡ record a.buffer { fresh = false }) (shown a.port cycles)
held_until_new staged port dq cycles on new none_left quiet =
    let a = acquire_input staged port dq in
    Holding-shown a.buffer port.use_dmabuf cycles a.port
      (new-Holding staged port dq on new none_left) quiet
