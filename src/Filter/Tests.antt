-- ===== src/Filter/Tests.antt =====
-- The theorems on src/pwf_filter_process.c, src/pwf_filter_event.c and the push path of
-- src/pwf_filter_port.c at concrete ports.
use tinypipewire.Common.{
  ℕ, ◌+◌, ◌%◌, ◌^◌, ◌≤◌, ◌<◌, ◌≡◌, ◌≢◌, refl, ◌⊎◌, Bool, true, false, not, ◌&&◌, Option, none, some,
  List, [], ◌∷◌, ◌++◌, if◌then◌else◌, length, get_elem?, arith,
}
use tinypipewire.Common.Int.{pos, negsuc}
use tinypipewire.Types.{audio, event, mem_ptr, SpaData, PwBuffer, ok}
use tinypipewire.Filter.State.{Port, input, output, Event, midi, property, DataRef}
use tinypipewire.Filter.Event.{PropIds, Builder, Control, event_encode, port_push_event, pending_of}
use tinypipewire.Filter.Event.Output.{push-output}
use tinypipewire.Filter.Process.{acquire_input, blank}
use tinypipewire.Filter.Process.Cycle.{ProcessCallback, PortCycle, filter_on_process, stack_ports}
use tinypipewire.Filter.Process.Cycle.Conserved.{filter_on_process-AllConserved, AllConserved}
use tinypipewire.Filter.Process.Present.{acquire_input-fresh, news, quiet_buffer}
use tinypipewire.Filter.Push.{push_port_data}
use tinypipewire.Filter.Push.Latest.{push_port_data-Spares, Apart}

-- A port for audio that holds nothing.
abbrev idle : Port
idle = record {
  direction = input;
  media_type = audio;
  blocks = λ a. [];
  pushed_data = none;
  pushed_size = 0;
  pushed_capacity = 0;
  pushed_pts = negsuc 0;
  pushed_pending = false;
  delivered_data = none;
  delivered_capacity = 0;
  incoming_events = [];
  incoming_events_capacity = 0;
  pending_events = [];
  pending_events_capacity = 0;
  event_output_capacity = 256;
  delivering_events = [];
  delivering_events_capacity = 0;
  use_dmabuf = false;
  current_dmabuf_buf = none;
  hold_enabled = false;
  has_held = false;
  held = none;
  held_dmabuf_buf = none;
  held_data = none;
  held_size = 0;
  held_pts = negsuc 0;
  update_seq = 0;
}

abbrev four_bytes : SpaData
four_bytes = record {
  type = mem_ptr;
  mapped = some (1 ∷ 2 ∷ 3 ∷ 4 ∷ []);
  maxsize = 4;
  chunk = some (record { offset = 0; size = 4; stride = pos 2 });
  fd = negsuc 0;
  mapoffset = 0;
}

-- A buffer of the graph, by its address.
abbrev full : ℕ → PwBuffer
full a = record {
  address = a;
  buffer = record { n_datas = 1; datas = λ i. four_bytes; header_pts = some (pos 90) };
  requested = 0;
  size = 0;
}

-- A buffer whose memory is not mapped.
abbrev bare : PwBuffer
bare = record {
  address = 8;
  buffer = record {
    n_datas = 1;
    datas = λ i. record four_bytes { mapped = none };
    header_pts = none;
  };
  requested = 0;
  size = 0;
}

-- A port with hold that shows buffer 7.
abbrev holding : Port
holding = record idle {
  hold_enabled = true;
  has_held = true;
  held = some (full 7);
  held_data = some (DataRef.graph (1 ∷ []));
  held_size = 1;
  update_seq = 3;
}

abbrev ids_1 : PropIds
ids_1 = record { volume = 65539; mute = 65540; channel_volumes = 65544 }

-- A builder that counts bytes.
abbrev counting : Builder
counting = record {
  State = ℕ;
  push_sequence = 16;
  control = λ s o k. s + 16;
  bytes = λ s b n. s + 8 + n;
  push_props = λ s. s + 16;
  prop = λ s k. s + 8;
  pop_object = λ s. s;
  pop_sequence = λ s. s;
  state_offset = λ s. s;
}

abbrev always : ℕ → Bool
always n = true

abbrev no_controls : List ℕ → ℕ → Option (List Control)
no_controls bytes size = none

abbrev note_on : Event
note_on = record {
  offset = 12;
  kind = midi;
  key = none;
  bytes = some (144 ∷ 60 ∷ 100 ∷ []);
  size = 3;
}

abbrev volume : Event
volume = record {
  offset = 0;
  kind = property;
  key = some "volume";
  bytes = some (1 ∷ 2 ∷ 3 ∷ 4 ∷ []);
  size = 4;
}

abbrev two_pushes : List ((ℕ → Bool) × Bool × Event)
two_pushes = (always, true, note_on) ∷ (always, true, volume) ∷ []

-- A cycle without the push lock, while the graph has a buffer.
abbrev one_missed : List ((ℕ → Bool) × Option PwBuffer)
one_missed = (always, some (full 9)) ∷ []

abbrev event_input : Port
event_input = record idle { media_type = event }

-- A buffer with room for the events.
abbrev roomy : PwBuffer
roomy = record (full 9) {
  buffer = record {
    n_datas = 1;
    datas = λ i. record four_bytes { maxsize = 256 };
    header_pts = none;
  };
}

abbrev event_output : Port
event_output = record idle { media_type = event; direction = output }

-- A port that has delivered block 20 and stages into block 10.
abbrev two_blocks : Port
two_blocks = record idle {
  blocks = λ a. 5 ∷ 6 ∷ [];
  pushed_data = some 10;
  pushed_size = 2;
  pushed_capacity = 4;
  pushed_pending = true;
  delivered_data = some 20;
  delivered_capacity = 4;
}

two_blocks-Apart : Apart two_blocks
two_blocks-Apart = record {
  different = λ a d p q e. ground arith;
  held_delivered = λ a p. ground arith;
  unheld = λ p. ground arith;
}

four_bytes-mapped : four_bytes.mapped ≢ none
four_bytes-mapped e = ground arith

-- An application that leaves every port and buffer as they are given.
abbrev passive : ProcessCallback
passive acquired i = elim (get_elem? acquired i) [
  | none ↦ (idle, blank)
  | some a ↦ (a.port, a.buffer)
]

abbrev two_ports : List (Port × Option PwBuffer)
two_ports = (holding, some (full 9)) ∷ (event_output, none) ∷ []

filter_on_process-AllConserved_example :
    let r = filter_on_process always ids_1 no_controls counting passive true true two_ports in
    ((r ≡ none) × ((length two_ports ≡ 0) ⊎ ((stack_ports < length two_ports) × (true ≡ false))))
    ⊎ ((cycles : List PortCycle) × (r ≡ some cycles) × AllConserved two_ports cycles)
filter_on_process-AllConserved_example =
    filter_on_process-AllConserved always ids_1 no_controls counting passive true true two_ports
      (four_bytes-mapped, (tt, tt))

acquire_input-fresh_example :
    let a = acquire_input true two_blocks none in
    (a.buffer.fresh ≡ news true two_blocks none)
    × (a.buffer.seq ≡ a.port.update_seq)
    × (a.port.update_seq ≡ (
        if news true two_blocks none
        then (two_blocks.update_seq + 1) % 2 ^ 64
        else two_blocks.update_seq))
    × (news true two_blocks none ≡ false → a.buffer ≡ quiet_buffer two_blocks)
    × (news true two_blocks none ≡ true
        → two_blocks.hold_enabled ≡ true
        → quiet_buffer a.port ≡ record a.buffer { fresh = false })
    × (news true two_blocks none ≡ false → quiet_buffer a.port ≡ quiet_buffer two_blocks)
    × (a.asked ≡ not (true && two_blocks.pushed_pending))
    × (a.port.pushed_pending ≡ (two_blocks.pushed_pending && not true))
acquire_input-fresh_example = acquire_input-fresh true two_blocks none

push_port_data-Spares_example :
    let next = (push_port_data true two_blocks (some (9 ∷ 8 ∷ 7 ∷ [])) 3 (pos 5) (some 30)).0 in
    (next.blocks 20 ≡ two_blocks.blocks 20)
    × (next.delivered_data ≡ two_blocks.delivered_data)
    × (next.held_data ≡ two_blocks.held_data)
    × (next.held_size ≡ two_blocks.held_size)
push_port_data-Spares_example =
    push_port_data-Spares true two_blocks (some (9 ∷ 8 ∷ 7 ∷ [])) 3 (pos 5) (some 30) 20
      two_blocks-Apart (λ d e f. ground arith) refl

push-output_example :
    let (next, code) = port_push_event ids_1 counting always true event_output note_on in
    (next.event_output_capacity ≡ event_output.event_output_capacity)
    × (next.media_type ≡ event)
    × (next.direction ≡ output)
    × (((code ≡ ok)
          × (next.pending_events ≡ event_output.pending_events ++ pending_of ids_1 note_on ∷ [])
          × (event_encode ids_1 counting next.pending_events ≤ event_output.event_output_capacity))
        ⊎ ((code ≢ ok) × (next.pending_events ≡ event_output.pending_events)))
push-output_example = push-output ids_1 counting always true event_output note_on refl refl
