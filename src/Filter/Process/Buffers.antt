-- ===== src/Filter/Process/Buffers.antt =====
-- What becomes of the PipeWire buffers in a cycle of src/pwf_filter_process.c.
use tinypipewire.Common.{
  refl, ℕ, ◌≡◌, ◌≢◌, inl, inr, ap, ap₂, sym, ◌∙◌, Bool, Option, none, some, List, [], ◌∷◌, ◌++◌,
  map, append-nil, arith, Option-cases, if◌then◌else◌,
}
use mathlib.Core.List.{map-append}
use tinypipewire.Types.{PwBuffer}
use tinypipewire.Filter.State.{Port, PortBuffer}
use tinypipewire.Filter.Event.{PropIds, Control, Builder, event_take_pending}
use tinypipewire.Filter.Event.Frame.{event_load_delivering_as_incoming-field, event_decode-field}
use tinypipewire.Filter.Process.{
  Acquired, acquire, release, acquire_input, acquire_output, acquire_event_input,
  acquire_event_output, event_input_graph, take_push, take_graph, settle, Got, chunk_size,
}

abbrev pub address : PwBuffer → ℕ
address b = b.address

abbrev pub opt_list : Option PwBuffer → List PwBuffer
opt_list none = []
opt_list (some b) = b ∷ []

-- What the cycle took from the graph for the port: what the dequeue gives, if it was called.
abbrev pub taken : Acquired → Option PwBuffer → List PwBuffer
taken a dq = if a.asked then opt_list dq else []

settle_conserves :
    (g : Got)
    → opt_list g.port.held ++ opt_list g.dequeued
      ≡ (settle g).queued ++ opt_list (settle g).port.held ++ opt_list (settle g).dequeued
unfolding settle
settle_conserves g = ground (arith, append-nil (opt_list g.port.held ++ opt_list g.dequeued))

settle_asked : (g : Got) → (settle g).asked ≡ g.asked
unfolding settle
settle_asked g = ground arith

-- What a port has got: its held buffer is as it was, and it is left with what was taken.
record Takes (port : Port) (dq : Option PwBuffer) (g : Got) : Type 0 where
  held : g.port.held ≡ port.held
  dequeued : opt_list g.dequeued ≡ (if g.asked then opt_list dq else [])

take_graph-Takes : (port : Port) (dq : Option PwBuffer) → Takes port dq (take_graph port dq)
unfolding take_graph
take_graph-Takes port none = ground arith
take_graph-Takes port (some b) = ground arith

take_push-Takes : (port : Port) (dq : Option PwBuffer) → Takes port dq (take_push port)
unfolding take_push
take_push-Takes port dq = ground arith

-- On an input port for data, every buffer that was held or that the graph gave is queued back at once,
-- or held from now on, or left to be queued back when the cycle ends: none is lost, none comes twice.
pub acquire_input_conserves :
    (staged : Bool) (port : Port) (dq : Option PwBuffer)
    → let a = acquire_input staged port dq in
      opt_list port.held ++ taken a dq ≡ a.queued ++ opt_list a.port.held ++ opt_list a.dequeued
unfolding acquire_input
acquire_input_conserves staged port dq = ground (
  arith,
  settle_conserves (take_push port),
  settle_conserves (take_graph port dq),
  settle_asked (take_push port),
  settle_asked (take_graph port dq),
  take_push-Takes port dq,
  take_graph-Takes port dq,
)

-- A port of another kind holds no buffer back: what it took waits for the end of the cycle.
record Passes (port : Port) (dq : Option PwBuffer) (a : Acquired) : Type 0 where
  held : a.port.held ≡ port.held
  queued : a.queued ≡ []
  dequeued : opt_list a.dequeued ≡ taken a dq

-- The first data of a buffer is mapped.
abbrev pub Mapped : Option PwBuffer → Type 0
Mapped none = Unit {0}
Mapped (some b) = (b.buffer.datas 0).mapped ≢ none

acquire_output-Passes :
    (port : Port) (dq : Option PwBuffer) → Mapped dq → Passes port dq (acquire_output port dq)
unfolding acquire_output
acquire_output-Passes port none m = ground arith
acquire_output-Passes port (some b) m = ground arith

acquire_event_output-Passes :
    (port : Port) (dq : Option PwBuffer) → Mapped dq → Passes port dq (acquire_event_output port dq)
unfolding acquire_event_output
acquire_event_output-Passes port none m = ground arith
acquire_event_output-Passes port (some b) m = ground arith

release-queues :
    (ids : PropIds) (builder : Builder) (port : Port) (shown : PortBuffer)
    (dequeued : Option PwBuffer)
    → map address (release ids builder port shown dequeued).1 ≡ map address (opt_list dequeued)
unfolding release
release-queues ids builder port shown none = ground arith
release-queues ids builder port shown (some b) = ground arith

module _ (realloc : ℕ → Bool) (ids : PropIds) (parse : List ℕ → ℕ → Option (List Control)) where
  acquire_event_input-Passes :
      (staged : Bool) (port : Port) (dq : Option PwBuffer)
      → Mapped dq
      → Passes port dq (acquire_event_input realloc ids parse staged port dq)
  unfolding acquire_event_input event_input_graph event_take_pending
  acquire_event_input-Passes staged port none m = ground (
    arith,
    event_load_delivering_as_incoming-field (λ p. p.held) (λ p es c. refl) realloc port,
    event_load_delivering_as_incoming-field (λ p. p.held) (λ p es c. refl) realloc
        (event_take_pending port),
  )
  acquire_event_input-Passes staged port (some b) m =
      elim (Option-cases (b.buffer.datas 0).mapped) [
        | inl e ↦ absurd (m e)
        | inr (bytes, e) ↦
            let sequence = parse bytes (chunk_size (b.buffer.datas 0)) in
            ground (
              arith,
              event_load_delivering_as_incoming-field (λ p. p.held) (λ p es c. refl) realloc port,
              event_load_delivering_as_incoming-field (λ p. p.held) (λ p es c. refl) realloc
                  (event_take_pending port),
              event_decode-field (λ p. p.held) (λ p es c. refl) realloc ids port sequence,
              event_decode-field (λ p. p.held) (λ p es c. refl) realloc ids
                  (event_take_pending port) sequence,
            )
      ]

  acquire-conserves :
      (staged : Bool) (port : Port) (dq : Option PwBuffer)
      → Mapped dq
      → let a = acquire realloc ids parse staged port dq in
        opt_list port.held ++ taken a dq ≡ a.queued ++ opt_list a.port.held ++ opt_list a.dequeued
  unfolding acquire
  acquire-conserves staged port dq m =
      let cleared = record port { current_dmabuf_buf = none } in
      ground (
        arith,
        acquire_input_conserves staged cleared dq,
        acquire_output-Passes cleared dq m,
        acquire_event_output-Passes cleared dq m,
        acquire_event_input-Passes staged cleared dq m,
      )

  -- In one cycle, on a port of any kind whose graph buffers have mapped data, and whatever the
  -- callback makes of the port: the buffers that the port held or that the graph gave are, address by
  -- address, those that are queued back before the callback, those held afterwards and those queued
  -- back at the end. None is lost, none comes twice.
  pub acquire-release-conserves :
      (builder : Builder) (staged : Bool) (port after : Port) (shown : PortBuffer)
      (dq : Option PwBuffer)
      → Mapped dq
      → let a = acquire realloc ids parse staged port dq in
        map address (opt_list port.held ++ taken a dq)
        ≡ map address a.queued
          ++ map address (opt_list a.port.held)
          ++ map address (release ids builder after shown a.dequeued).1
  acquire-release-conserves builder staged port after shown dq m =
      let a = acquire realloc ids parse staged port dq in
      ap (map address) (acquire-conserves staged port dq m)
      ∙ map-append address (a.queued ++ opt_list a.port.held) (opt_list a.dequeued)
      ∙ ap₂ ◌++◌ (map-append address a.queued (opt_list a.port.held))
          (sym (release-queues ids builder after shown a.dequeued))
