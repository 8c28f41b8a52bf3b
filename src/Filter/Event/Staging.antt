-- ===== src/Filter/Event/Staging.antt =====
-- Input event ports: what is pushed is staged in order, and what is staged is loaded unchanged.
use tinypipewire.Common.{
  ℕ, ◌<◌, ◌≤◌, ◌≡◌, inl, inr, sym, String, eq_iff, Bool, true, false, Option, none, some, List, [],
  ◌∷◌, ◌++◌, map, append_assoc, append-nil, arith, length, take, take_all, ltb, if◌then◌else◌,
  Option-cases,
}
use mathlib.Core.List.{map-append}
use tinypipewire.Types.{event, Code, ok}
use tinypipewire.Filter.State.{Port, input, Event, PendingEvent, EventKind}
use tinypipewire.Filter.Event.{
  PropIds, Builder, property_find_by_name, event_kind_key_valid, grown, incoming_event_append,
  pending_event_append, pending_of, as_event, load_events, port_push_event,
}

-- The array has room for what it holds.
pub record Fits (port : Port) : Type 0 where
  pub pending : length port.pending_events ≤ port.pending_events_capacity
  pub incoming : length port.incoming_events ≤ port.incoming_events_capacity
  pub delivering : length port.delivering_events ≤ port.delivering_events_capacity

-- A pointer and a size that agree, as the public API asks for.
abbrev pub Agree : Option (List ℕ) → ℕ → Type 0
Agree none size = size ≡ 0
Agree (some b) size = (length b ≡ size) × (0 < size)

copied_bytes :
    (bytes : Option (List ℕ)) (size : ℕ)
    → Agree bytes size
    → (if ltb 0 size then (elim bytes [ none ↦ none | some b ↦ some (take size b) ]) else none)
      ≡ bytes
copied_bytes none size a = ground arith
copied_bytes (some b) size a = ground (arith, take_all size b)

copied_key :
    (ids : PropIds) (kind : EventKind) (key : Option String) (offset size : ℕ)
    (bytes : Option (List ℕ))
    → event_kind_key_valid ids kind key ≡ true
    → (pending_of ids
        (record { offset = offset; kind = kind; key = key; bytes = bytes; size = size })).key
      ≡ key
unfolding pending_of event_kind_key_valid property_find_by_name
copied_key ids kind none offset size bytes v = ground arith
copied_key ids kind (some k) offset size bytes v =
    ground (arith, eq_iff "volume" k, eq_iff "mute" k, eq_iff "channelVolumes" k)

-- An event that a push takes is copied field by field: the key becomes the table's own spelling of the
-- same name, and the bytes are a copy of all of them.
pub as_event-pending_of :
    (ids : PropIds) (ev : Event)
    → Agree ev.bytes ev.size
    → event_kind_key_valid ids ev.kind ev.key ≡ true
    → as_event (pending_of ids ev) ≡ ev
unfolding pending_of
as_event-pending_of ids ev a v = ground (
  arith,
  copied_bytes ev.bytes ev.size a,
  copied_key ids ev.kind ev.key ev.offset ev.size ev.bytes v,
)

-- Pushes one after the other on one port, each with what the allocator does: the port at the end and
-- the events that were taken.
unfoldable pub push_all :
    PropIds → Builder → Port → List ((ℕ → Bool) × Bool × Event) → Port × List Event
push_all ids b port [] = (port, [])
push_all ids b port ((realloc, malloc, ev) ∷ pushes) =
    let (next, code) = port_push_event ids b realloc malloc port ev in
    let (last, taken) = push_all ids b next pushes in
    (last, elim code [ ok ↦ ev ∷ taken | _ ↦ taken ])

-- What a push on an input event port does: it is taken and staged last, or refused and changes none of
-- the staged events.
record Pushed (ids : PropIds) (port next : Port) (ev : Event) (taken : Bool) : Type 0 where
  media_type : next.media_type ≡ event
  direction : next.direction ≡ input
  staged :
      next.pending_events
      ≡ (if taken then port.pending_events ++ pending_of ids ev ∷ [] else port.pending_events)
  valid : taken ≡ true → event_kind_key_valid ids ev.kind ev.key ≡ true

abbrev is_ok : Code → Bool
is_ok ok = true
is_ok _ = false

pub record Appended (ids : PropIds) (port next : Port) (ev : Event) (done : Bool) : Type 0 where
  pub media_type : next.media_type ≡ port.media_type
  pub direction : next.direction ≡ port.direction
  pub output_capacity : next.event_output_capacity ≡ port.event_output_capacity
  pub staged :
      next.pending_events
      ≡ (if done then port.pending_events ++ pending_of ids ev ∷ [] else port.pending_events)

pub pending_event_append-Appended :
    (realloc : ℕ → Bool) (malloc : Bool) (ids : PropIds) (port : Port) (ev : Event)
    → let (next, done) = pending_event_append realloc malloc ids port ev in
      Appended ids port next ev done
unfolding pending_event_append
pending_event_append-Appended realloc malloc ids port ev =
    elim (Option-cases (grown realloc (length port.pending_events) port.pending_events_capacity)) [
      | inl e ↦ ground arith
      | inr (c, e) ↦ ground arith
    ]

push-Pushed :
    (ids : PropIds) (b : Builder) (realloc : ℕ → Bool) (malloc : Bool) (port : Port) (ev : Event)
    → port.media_type ≡ event
    → port.direction ≡ input
    → let (next, code) = port_push_event ids b realloc malloc port ev in
      Pushed ids port next ev (is_ok code)
unfolding port_push_event
push-Pushed ids b realloc malloc port ev m d =
    ground (arith, pending_event_append-Appended realloc malloc ids port ev)

-- The pointer and the size of every pushed event agree.
abbrev pub AllAgree : List ((ℕ → Bool) × Bool × Event) → Type 0
AllAgree [] = Unit {0}
AllAgree ((realloc, malloc, ev) ∷ pushes) = Agree ev.bytes ev.size × AllAgree pushes

module _ (ids : PropIds) (b : Builder) where
  pub pushed_events :
      (pushes : List ((ℕ → Bool) × Bool × Event)) (port : Port)
      → port.media_type ≡ event
      → port.direction ≡ input
      → AllAgree pushes
      → let (last, taken) = push_all ids b port pushes in
        map as_event last.pending_events ≡ map as_event port.pending_events ++ taken
  unfolding push_all
  pushed_events [] port m d a = sym (append-nil (map as_event port.pending_events))
  pushed_events ((realloc, malloc, ev) ∷ pushes) port m d a =
      let step = port_push_event ids b realloc malloc port ev in
      let p = push-Pushed ids b realloc malloc port ev m d in
      ground (
        arith,
        p,
        pushed_events pushes step.0 p.media_type p.direction a.1,
        as_event-pending_of ids ev a.0,
        map-append as_event port.pending_events (pending_of ids ev ∷ []),
        append_assoc (map as_event port.pending_events) (ev ∷ []) (push_all ids b step.0 pushes).1,
      )

pub load_events-append :
    (events : List PendingEvent) (port : Port)
    → (load_events (λ n. true) events port).incoming_events
      ≡ port.incoming_events ++ map as_event events
unfolding load_events incoming_event_append grown
load_events-append [] port = sym (append-nil port.incoming_events)
load_events-append (pe ∷ events) port =
    let next = incoming_event_append (λ n. true) port (as_event pe) in
    ground (
      arith,
      load_events-append events next,
      append_assoc port.incoming_events (as_event pe ∷ []) (map as_event events),
    )

-- Pushes leave an input event port one.
pub push_all-IsInput :
    (ids : PropIds) (b : Builder) (pushes : List ((ℕ → Bool) × Bool × Event)) (port : Port)
    → port.media_type ≡ event
    → port.direction ≡ input
    → let last = (push_all ids b port pushes).0 in
      (last.media_type ≡ event) × (last.direction ≡ input)
unfolding push_all
push_all-IsInput ids b [] port m d = (m, d)
push_all-IsInput ids b ((realloc, malloc, ev) ∷ pushes) port m d =
    let p = push-Pushed ids b realloc malloc port ev m d in
    push_all-IsInput ids b pushes _ p.media_type p.direction
