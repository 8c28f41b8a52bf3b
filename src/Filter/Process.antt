-- ===== src/Filter/Process.antt =====
-- `pwf_filter_on_process` of src/pwf_filter_process.c: one cycle, which takes what each port has,
-- calls the application once, and gives the buffers back.
pub mod Buffers
pub mod Present
pub mod Staged
pub mod Encoded
pub mod Ownership
pub mod Cycle
pub mod Mailbox
use tinypipewire.Common.{
  ℕ, zero, suc, ◌+◌, ◌-◌, ◌%◌, ◌^◌, Bool, true, false, not, ◌&&◌, ◌||◌, Option, none, some, is_some,
  List, [], ◌∷◌, ◌++◌, length, ltb, ◌==◌, if◌then◌else◌,
}
use tinypipewire.Common.Int.{ℤ, pos, negsuc}
use tinypipewire.Types.{DataType, event, PwBuffer, SpaBuffer, SpaData, Chunk, is_dma_buf}
use tinypipewire.Dmabuf.{dmabuf_buffer_present}
use tinypipewire.Filter.State.{
  Port, PortDirection, input, output, PortBuffer, DataRef, block, graph,
}
use tinypipewire.Filter.Event.{
  PropIds, Control, Builder, event_take_pending, event_load_delivering_as_incoming, event_decode,
  event_clear_delivering, event_clear_pending, event_finish_output,
}

-- `pwf_filter_buffer_pts`
unfoldable pub buffer_pts : PwBuffer → ℤ
buffer_pts b = elim b.buffer.header_pts [ none ↦ negsuc 0 | some pts ↦ pts ]

-- `pwf_filter_input_buffer_present`, on a buffer that is not null
unfoldable pub input_buffer_present : Port → PwBuffer → Bool
unfolding dmabuf_buffer_present
input_buffer_present port b =
    if b.buffer.n_datas == 0
    then false
    else if port.use_dmabuf
    then dmabuf_buffer_present (some b.buffer)
    else is_some (b.buffer.datas 0).mapped

-- One port after the first loop: the port, what the callback is shown, `dequeued[i]`, whether
-- `pw_filter_dequeue_buffer` was called, and the buffers already queued back.
pub record Acquired : Type 0 where
  pub port : Port
  pub buffer : PortBuffer
  pub dequeued : Option PwBuffer
  pub asked : Bool
  pub queued : List PwBuffer

-- The buffer as the loop initialises it.
abbrev pub blank : PortBuffer
blank = record { contents = none; size = 0; capacity = 0; pts = negsuc 0; fresh = false; seq = 0 }

-- `d->chunk ? d->chunk->size : 0`
abbrev pub chunk_size : SpaData → ℕ
chunk_size d = elim d.chunk [ none ↦ 0 | some c ↦ c.size ]

-- The part of an event input port that reads the graph: `dq` is what the dequeue gives.
event_input_graph :
    (ℕ → Bool) → PropIds → (List ℕ → ℕ → Option (List Control)) → Port → Option PwBuffer → Acquired
event_input_graph realloc ids parse port dq =
    let empty : Acquired = record {
      port = record port { incoming_events = [] };
      buffer = blank;
      dequeued = none;
      asked = true;
      queued = [];
    } in
    elim dq [
      | none ↦ empty
      | some b ↦ elim (b.buffer.datas 0).mapped [
        | none ↦ empty
        | some bytes ↦ record {
          port = event_decode realloc ids port (parse bytes (chunk_size (b.buffer.datas 0)));
          buffer = blank;
          dequeued = some b;
          asked = true;
          queued = [];
        }
      ]
    ]

unfoldable pub acquire_event_input :
    (ℕ → Bool)
    → PropIds
    → (List ℕ → ℕ → Option (List Control))
    → Bool
    → Port
    → Option PwBuffer
    → Acquired
unfolding event_input_graph
acquire_event_input realloc ids parse staged port dq =
    let taken =
      if staged && ltb 0 (length port.pending_events) then event_take_pending port else port in
    if ltb 0 (length taken.delivering_events)
    then record {
      port = event_load_delivering_as_incoming realloc taken;
      buffer = blank;
      dequeued = none;
      asked = false;
      queued = [];
    }
    else event_input_graph realloc ids parse taken dq

unfoldable pub acquire_event_output : Port → Option PwBuffer → Acquired
acquire_event_output port dq =
    let none_left = record port { pending_events = []; event_output_capacity = 0 } in
    let nothing : Acquired = record {
      port = none_left;
      buffer = blank;
      dequeued = none;
      asked = true;
      queued = [];
    } in
    elim dq [
      | none ↦ nothing
      | some b ↦ elim (b.buffer.datas 0).mapped [
        | none ↦ nothing
        | some bytes ↦ record {
          port = record none_left { event_output_capacity = (b.buffer.datas 0).maxsize };
          buffer = blank;
          dequeued = some b;
          asked = true;
          queued = [];
        }
      ]
    ]

-- What an input port has got before hold is considered: the port, the buffer, `dequeued[i]`, whether
-- the graph was asked, and `got_new`.
pub record Got : Type 0 where
  pub port : Port
  pub buffer : PortBuffer
  pub dequeued : Option PwBuffer
  pub asked : Bool
  pub got_new : Bool

-- The swap that takes a staged push.
take_push : Port → Got
take_push port = record {
  port = record port {
    pushed_data = port.delivered_data;
    pushed_capacity = port.delivered_capacity;
    delivered_data = port.pushed_data;
    delivered_capacity = port.pushed_capacity;
    pushed_pending = false;
  };
  buffer = record blank {
    contents = elim port.pushed_data [ none ↦ none | some a ↦ some (block a) ];
    size = port.pushed_size;
    pts = port.pushed_pts;
  };
  dequeued = none;
  asked = false;
  got_new = true;
}

take_graph : Port → Option PwBuffer → Got
unfolding input_buffer_present buffer_pts
take_graph port none = record {
  port = port;
  buffer = blank;
  dequeued = none;
  asked = true;
  got_new = false;
}
take_graph port (some b) =
    let d = b.buffer.datas 0 in
    let unusable : Got = record {
      port = port;
      buffer = blank;
      dequeued = some b;
      asked = true;
      got_new = false;
    } in
    if not (input_buffer_present port b)
    then unusable
    else if port.use_dmabuf
    then record {
      port = record port { current_dmabuf_buf = some b.buffer };
      buffer = record blank { pts = buffer_pts b };
      dequeued = some b;
      asked = true;
      got_new = true;
    }
    else record {
      port = port;
      buffer = record blank {
        contents = elim d.mapped [ none ↦ none | some bytes ↦ some (graph bytes) ];
        size = chunk_size d;
        pts = buffer_pts b;
      };
      dequeued = some b;
      asked = true;
      got_new = true;
    }

-- `if (port->held) pw_filter_queue_buffer(port, port->held);`
abbrev give_back : Option PwBuffer → List PwBuffer
give_back none = []
give_back (some b) = b ∷ []

-- What hold makes of it.
settle : Got → Acquired
settle g =
    let seq' = (g.port.update_seq + 1) % 2 ^ 64 in
    let p = g.port in
    if g.got_new
    then (if p.hold_enabled
        then record {
          port = record p {
            update_seq = seq';
            held = g.dequeued;
            has_held = true;
            held_data = g.buffer.contents;
            held_size = g.buffer.size;
            held_pts = g.buffer.pts;
            held_dmabuf_buf = p.current_dmabuf_buf;
          };
          buffer = record g.buffer { fresh = true; seq = seq' };
          dequeued = none;
          asked = g.asked;
          queued = give_back p.held;
        }
        else record {
          port = record p { update_seq = seq' };
          buffer = record g.buffer { fresh = true; seq = seq' };
          dequeued = g.dequeued;
          asked = g.asked;
          queued = [];
        })
    else if p.hold_enabled && p.has_held
    then record {
      port = record p { current_dmabuf_buf = p.held_dmabuf_buf };
      buffer = record g.buffer {
        contents = p.held_data;
        size = p.held_size;
        pts = p.held_pts;
        seq = p.update_seq;
      };
      dequeued = g.dequeued;
      asked = g.asked;
      queued = [];
    }
    else record {
      port = p;
      buffer = record g.buffer { seq = p.update_seq };
      dequeued = g.dequeued;
      asked = g.asked;
      queued = [];
    }

unfoldable pub acquire_input : Bool → Port → Option PwBuffer → Acquired
unfolding take_push take_graph settle
acquire_input staged port dq =
    settle (if staged && port.pushed_pending then take_push port else take_graph port dq)

unfoldable pub acquire_output : Port → Option PwBuffer → Acquired
acquire_output port dq =
    let nothing : Acquired = record {
      port = port;
      buffer = blank;
      dequeued = none;
      asked = true;
      queued = [];
    } in
    elim dq [
      | none ↦ nothing
      | some b ↦ elim (b.buffer.datas 0).mapped [
        | none ↦ nothing
        | some bytes ↦ record {
          port = port;
          buffer = record blank {
            contents = some (graph bytes);
            capacity = (b.buffer.datas 0).maxsize;
          };
          dequeued = some b;
          asked = true;
          queued = [];
        }
      ]
    ]

module _ (realloc : ℕ → Bool) (ids : PropIds) (parse : List ℕ → ℕ → Option (List Control)) where
  -- One round of the first loop; `staged` is whether the push lock was got.
  unfoldable pub acquire : Bool → Port → Option PwBuffer → Acquired
  acquire staged port dq =
      let cleared = record port { current_dmabuf_buf = none } in
      elim port.media_type [
        | event ↦ elim port.direction [
          | input ↦ acquire_event_input realloc ids parse staged cleared dq
          | output ↦ acquire_event_output cleared dq
        ]
        | _ ↦ elim port.direction [
          | input ↦ acquire_input staged cleared dq
          | output ↦ acquire_output cleared dq
        ]
      ]

-- The chunk written for an output buffer: `if (d->chunk) { size = …; offset = 0; stride = 0; }`.
unfoldable pub with_chunk : PwBuffer → ℕ → PwBuffer
with_chunk b size = record b {
  buffer = record b.buffer {
    datas = λ i.
        let d = b.buffer.datas i in
        if i == 0
        then record d {
          chunk = elim d.chunk [
            | none ↦ none
            | some c ↦ some (record { offset = 0; size = size % 2 ^ 32; stride = pos 0 })
          ];
        }
        else d;
  };
}

module _ (ids : PropIds) (builder : Builder) where
  -- One round of the second loop: the port and what it queues back. `shown` is the buffer as the
  -- callback left it.
  unfoldable pub release : Port → PortBuffer → Option PwBuffer → Port × List PwBuffer
  unfolding with_chunk
  release port shown dequeued =
      let finished = event_finish_output ids builder port in
      let released : Port × List PwBuffer = elim port.media_type [
        | event ↦ elim port.direction [
          | input ↦ (event_clear_delivering port, give_back dequeued)
          | output ↦ elim dequeued [
            | none ↦ (event_clear_pending port, [])
            | some b ↦ (finished.0, with_chunk b finished.1 ∷ [])
          ]
        ]
        | _ ↦ elim dequeued [
          | none ↦ (port, [])
          | some b ↦ elim port.direction [
            | input ↦ (port, b ∷ [])
            | output ↦ (port, with_chunk b shown.size ∷ [])
          ]
        ]
      ] in
      released
