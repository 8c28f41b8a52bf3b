-- ===== src/Filter/Event.antt =====
-- src/pwf_filter_event.c: the events of a port. What `realloc` and `malloc` do is an argument: whether
-- growing to a capacity succeeds, and whether a copy can be made.
pub mod Vocabulary
pub mod Frame
pub mod Staging
pub mod Output
use tinypipewire.Common.{
  ℕ, zero, suc, ◌+◌, ◌-◌, ◌*◌, ◌%◌, ◌^◌, String, str_eq, Bool, true, false, not, ◌&&◌, ◌||◌, Option,
  none, some, is_some, List, [], ◌∷◌, ◌++◌, length, get_elem?, take, ltb, leb, ◌==◌, if◌then◌else◌,
}
use tinypipewire.Types.{DataType, event, Code, ok, invalid_arg, no_memory}
use tinypipewire.Filter.State.{
  Port, PortDirection, input, output, Event, PendingEvent, EventKind, midi, osc, property, unknown,
}

-- The values of SPA's `enum spa_prop` that the table names.
pub record PropIds : Type 0 where
  pub volume : ℕ
  pub mute : ℕ
  pub channel_volumes : ℕ

-- `struct pwf_property_entry`
abbrev pub PropertyEntry : Type 0
PropertyEntry = String × ℕ

-- `pwf_property_table`
abbrev pub property_table : PropIds → List PropertyEntry
property_table ids =
    ("volume", ids.volume) ∷ ("mute", ids.mute) ∷ ("channelVolumes", ids.channel_volumes) ∷ []

entry_of_name : List PropertyEntry → String → Option PropertyEntry
entry_of_name [] name = none
entry_of_name ((n, id) ∷ table) name =
    if str_eq n name then some (n, id) else entry_of_name table name

entry_of_id : List PropertyEntry → ℕ → Option PropertyEntry
entry_of_id [] prop = none
entry_of_id ((n, id) ∷ table) prop = if id == prop then some (n, id) else entry_of_id table prop

unfoldable pub property_find_by_name : PropIds → Option String → Option PropertyEntry
unfolding entry_of_name
property_find_by_name ids none = none
property_find_by_name ids (some name) = entry_of_name (property_table ids) name

unfoldable pub property_find_by_id : PropIds → ℕ → Option PropertyEntry
unfolding entry_of_id
property_find_by_id ids prop = entry_of_id (property_table ids) prop

unfoldable pub event_kind_key_valid : PropIds → EventKind → Option String → Bool
unfolding property_find_by_name
event_kind_key_valid ids property key = is_some (property_find_by_name ids key)
event_kind_key_valid ids midi key = not (is_some key)
event_kind_key_valid ids osc key = not (is_some key)
event_kind_key_valid ids unknown key = false

-- `capacity == 0 ? 4 : capacity * 2`
abbrev pub next_capacity : ℕ → ℕ
next_capacity capacity = if capacity == 0 then 4 else capacity * 2

-- The growth step of every array of the filter: the capacity afterwards, `none` if `realloc` fails.
unfoldable pub grown : (ℕ → Bool) → ℕ → ℕ → Option ℕ
grown realloc n capacity =
    if n == capacity
    then (if realloc (next_capacity capacity) then some (next_capacity capacity) else none)
    else some capacity

-- `pwf_filter_incoming_event_append`; its result is never used.
unfoldable pub incoming_event_append : (ℕ → Bool) → Port → Event → Port
unfolding grown
incoming_event_append realloc port ev =
    elim (grown realloc (length port.incoming_events) port.incoming_events_capacity) [
      | none ↦ port
      | some capacity ↦ record port {
        incoming_events = port.incoming_events ++ ev ∷ [];
        incoming_events_capacity = capacity;
      }
    ]

-- One control of a sequence, as SPA's iterators and accessors give it: its offset and its value.
-- `bytes` is `none` where `spa_pod_get_bytes` fails, `props` is `none` where the value is no Props
-- object, and a property is its key with its body.
pub data Value : Type 0 where
  midi_bytes osc_bytes : Option (List ℕ) → Value
  props : Option (List (ℕ × List ℕ)) → Value
  other : List ℕ → Value

pub record Control : Type 0 where
  pub offset : ℕ
  pub value : Value

event_of_bytes : ℕ → EventKind → Option String → List ℕ → Event
event_of_bytes offset kind key bytes = record {
  offset = offset;
  kind = kind;
  key = key;
  bytes = some bytes;
  size = length bytes;
}

-- The loop over the properties of one control: those outside the vocabulary are skipped.
append_props : (ℕ → Bool) → PropIds → ℕ → List (ℕ × List ℕ) → Port → Port
unfolding incoming_event_append event_of_bytes
append_props realloc ids offset [] port = port
append_props realloc ids offset ((key, body) ∷ rest) port =
    append_props realloc ids offset rest (elim (property_find_by_id ids key) [
      | none ↦ port
      | some (name, id) ↦
          incoming_event_append realloc port (event_of_bytes offset property (some name) body)
    ])

append_control : (ℕ → Bool) → PropIds → ℕ → Value → Port → Port
unfolding incoming_event_append event_of_bytes append_props
append_control realloc ids offset (midi_bytes none) port = port
append_control realloc ids offset (midi_bytes (some b)) port =
    incoming_event_append realloc port (event_of_bytes offset midi none b)
append_control realloc ids offset (osc_bytes none) port = port
append_control realloc ids offset (osc_bytes (some b)) port =
    incoming_event_append realloc port (event_of_bytes offset osc none b)
append_control realloc ids offset (props none) port = port
append_control realloc ids offset (props (some l)) port = append_props realloc ids offset l port
append_control realloc ids offset (other body) port =
    incoming_event_append realloc port (event_of_bytes offset unknown none body)

append_controls : (ℕ → Bool) → PropIds → List Control → Port → Port
unfolding append_control
append_controls realloc ids [] port = port
append_controls realloc ids (c ∷ controls) port =
    append_controls realloc ids controls (append_control realloc ids c.offset c.value port)

-- `pwf_filter_event_decode`; the sequence is what SPA makes of the data, `none` where there is none or
-- it is no sequence.
unfoldable pub event_decode : (ℕ → Bool) → PropIds → Port → Option (List Control) → Port
unfolding append_controls
event_decode realloc ids port sequence =
    let cleared = record port { incoming_events = [] } in
    elim sequence [ none ↦ cleared | some controls ↦ append_controls realloc ids controls cleared ]

-- `pwf_filter_event_take_pending`: the two lists change places.
unfoldable pub event_take_pending : Port → Port
event_take_pending port = record port {
  delivering_events = port.pending_events;
  delivering_events_capacity = port.pending_events_capacity;
  pending_events = [];
  pending_events_capacity = port.delivering_events_capacity;
}

-- The event that a staged one is delivered as.
abbrev pub as_event : PendingEvent → Event
as_event pe = record {
  offset = pe.offset;
  kind = pe.kind;
  key = pe.key;
  bytes = pe.bytes;
  size = pe.size;
}

pub load_events : (ℕ → Bool) → List PendingEvent → Port → Port
unfolding incoming_event_append
load_events realloc [] port = port
load_events realloc (pe ∷ events) port =
    load_events realloc events (incoming_event_append realloc port (as_event pe))

unfoldable pub event_load_delivering_as_incoming : (ℕ → Bool) → Port → Port
unfolding load_events
event_load_delivering_as_incoming realloc port =
    load_events realloc port.delivering_events (record port { incoming_events = [] })

unfoldable pub event_clear_pending : Port → Port
event_clear_pending port = record port { pending_events = [] }

unfoldable pub event_clear_delivering : Port → Port
event_clear_delivering port = record port { delivering_events = [] }

-- The copy that is staged. `memcpy` takes the first `size` bytes.
pub pending_of : PropIds → Event → PendingEvent
pending_of ids ev = record {
  offset = ev.offset;
  kind = ev.kind;
  key = elim ev.kind [
    | property ↦ elim (property_find_by_name ids ev.key) [
      | none ↦ none
      | some (name, id) ↦ some name
    ]
    | _ ↦ none
  ];
  bytes =
      if ltb 0 ev.size
      then (elim ev.bytes [ none ↦ none | some b ↦ some (take ev.size b) ])
      else none;
  size = ev.size;
}

-- `pwf_filter_pending_event_append`: the port and whether the event was staged.
unfoldable pub pending_event_append : (ℕ → Bool) → Bool → PropIds → Port → Event → Port × Bool
unfolding grown pending_of
pending_event_append realloc malloc ids port ev =
    elim (grown realloc (length port.pending_events) port.pending_events_capacity) [
      | none ↦ (port, false)
      | some capacity ↦
          if ltb 0 ev.size && not malloc
          then (record port { pending_events_capacity = capacity }, false)
          else (
            record port {
              pending_events = port.pending_events ++ pending_of ids ev ∷ [];
              pending_events_capacity = capacity;
            },
            true,
          )
    ]

-- `pwf_filter_pending_event_pop_last`
unfoldable pub pending_event_pop_last : Port → Port
pending_event_pop_last port = record port {
  pending_events = take (length port.pending_events - 1) port.pending_events;
}

-- SPA's POD builder, in a dry run and when it writes alike: a state, the operations that the encoder
-- uses, and the offset reached.
pub record Builder : Type 1 where
  pub State : Type 0
  pub push_sequence : State
  pub control : State → ℕ → EventKind → State
  pub bytes : State → Option (List ℕ) → ℕ → State
  pub push_props : State → State
  pub prop : State → ℕ → State
  pub pop_object : State → State
  pub pop_sequence : State → State
  pub state_offset : State → ℕ

module _ (ids : PropIds) (b : Builder) where
  open b use {State}

  encode_one : State → PendingEvent → State
  encode_one s pe = elim pe.kind [
    | midi ↦ b.bytes (b.control s pe.offset midi) pe.bytes (pe.size % 2 ^ 32)
    | osc ↦ b.bytes (b.control s pe.offset osc) pe.bytes (pe.size % 2 ^ 32)
    | property ↦ elim (property_find_by_name ids pe.key) [
      | none ↦ s
      | some (name, id) ↦ b.pop_object (
          b.bytes (b.prop (b.push_props (b.control s pe.offset property)) id) pe.bytes
            (pe.size % 2 ^ 32))
    ]
    | unknown ↦ s
  ]

  encode_loop : State → List PendingEvent → State
  unfolding encode_one
  encode_loop s [] = s
  encode_loop s (pe ∷ events) = encode_loop (encode_one s pe) events

  -- `pwf_filter_event_encode`: the size, which is the same whether the builder has a buffer or not.
  unfoldable pub event_encode : List PendingEvent → ℕ
  unfolding encode_loop
  event_encode events = b.state_offset (b.pop_sequence (encode_loop b.push_sequence events))

  -- `pwf_filter_event_finish_output`
  unfoldable pub event_finish_output : Port → Port × ℕ
  unfolding event_encode event_clear_pending
  event_finish_output port = (event_clear_pending port, event_encode port.pending_events)

  -- `pwf_filter_port_push_event` on a port and event that are not null.
  unfoldable pub port_push_event : (ℕ → Bool) → Bool → Port → Event → Port × Code
  port_push_event realloc malloc port ev =
      let (staged, done) = pending_event_append realloc malloc ids port ev in
      let needed = event_encode staged.pending_events in
      let direction : Code × Port = elim port.direction [
        | input ↦ (if done then ok else no_memory, staged)
        | output ↦
            if not done
            then (no_memory, staged)
            else if ltb port.event_output_capacity needed
            then (invalid_arg, pending_event_pop_last staged)
            else (ok, staged)
      ] in
      elim port.media_type [
        | event ↦
            if ltb 0 ev.size && not (is_some ev.bytes)
            then (port, invalid_arg)
            else if not (event_kind_key_valid ids ev.kind ev.key)
            then (port, invalid_arg)
            else (direction.1, direction.0)
        | _ ↦ (port, invalid_arg)
      ]

-- `pwf_filter_port_get_event_count` and `pwf_filter_port_get_event`
abbrev reads_events : Port → Bool
reads_events port = elim port.media_type [
  | event ↦ elim port.direction [ input ↦ true | output ↦ false ]
  | _ ↦ false
]

unfoldable pub port_get_event_count : Port → ℕ
port_get_event_count port = if reads_events port then length port.incoming_events else 0

unfoldable pub port_get_event : Port → ℕ → Option Event
port_get_event port index = if reads_events port then get_elem? port.incoming_events index else none
