-- ===== src/Filter/Event/Frame.antt =====
-- Reading events in changes the port's incoming events, and nothing else of it.
use tinypipewire.Common.{
  ℕ, ◌≡◌, refl, ◌∙◌, Bool, Option, none, some, List, [], ◌∷◌, ◌++◌, length, Option-cases, inl, inr,
}
use tinypipewire.Filter.State.{Port, Event, PendingEvent, property}
use tinypipewire.Filter.Event.{
  PropIds, Control, Value, midi_bytes, osc_bytes, props, other, grown, incoming_event_append,
  append_props, append_control, append_controls, event_decode, event_load_delivering_as_incoming,
  load_events, property_find_by_id, event_of_bytes, as_event,
}

module _ {A : Type 0} (field : Port → A)
    (unread : (port : Port) (events : List Event) (capacity : ℕ)
      → field (record port { incoming_events = events; incoming_events_capacity = capacity })
        ≡ field port)
    (realloc : ℕ → Bool) where
  append-field :
      (port : Port) (ev : Event) → field (incoming_event_append realloc port ev) ≡ field port
  unfolding incoming_event_append
  append-field port ev =
      elim (Option-cases
        (grown realloc (length port.incoming_events) port.incoming_events_capacity)) [
          | inl e ↦ rw (e, incoming_event_append) refl
          | inr (c, e) ↦
              rw (e, incoming_event_append) (unread port (port.incoming_events ++ ev ∷ []) c)
        ]

  load_events-field :
      (events : List PendingEvent) (port : Port)
      → field (load_events realloc events port) ≡ field port
  unfolding load_events
  load_events-field [] port = refl
  load_events-field (pe ∷ events) port =
      load_events-field events (incoming_event_append realloc port (as_event pe))
      ∙ append-field port (as_event pe)

  pub event_load_delivering_as_incoming-field :
      (port : Port) → field (event_load_delivering_as_incoming realloc port) ≡ field port
  unfolding event_load_delivering_as_incoming
  event_load_delivering_as_incoming-field port =
      load_events-field port.delivering_events (record port { incoming_events = [] })
      ∙ unread port [] port.incoming_events_capacity

  module _ (ids : PropIds) where
    append_props-field :
        (offset : ℕ) (l : List (ℕ × List ℕ)) (port : Port)
        → field (append_props realloc ids offset l port) ≡ field port
    unfolding append_props
    append_props-field offset [] port = refl
    append_props-field offset ((key, body) ∷ l) port =
        elim (Option-cases (property_find_by_id ids key)) [
          | inl e ↦ rw (e, append_props) (append_props-field offset l port)
          | inr ((name, id), e) ↦
              rw (e, append_props)
                (append_props-field offset l (
                    incoming_event_append realloc port
                      (event_of_bytes offset property (some name) body))
                  ∙ append-field port (event_of_bytes offset property (some name) body))
        ]

    append_control-field :
        (offset : ℕ) (v : Value) (port : Port)
        → field (append_control realloc ids offset v port) ≡ field port
    unfolding append_control
    append_control-field offset (midi_bytes none) port = refl
    append_control-field offset (midi_bytes (some b)) port = append-field port _
    append_control-field offset (osc_bytes none) port = refl
    append_control-field offset (osc_bytes (some b)) port = append-field port _
    append_control-field offset (props none) port = refl
    append_control-field offset (props (some l)) port = append_props-field offset l port
    append_control-field offset (other body) port = append-field port _

    append_controls-field :
        (controls : List Control) (port : Port)
        → field (append_controls realloc ids controls port) ≡ field port
    unfolding append_controls
    append_controls-field [] port = refl
    append_controls-field (c ∷ controls) port =
        append_controls-field controls (append_control realloc ids c.offset c.value port)
        ∙ append_control-field c.offset c.value port

    pub event_decode-field :
        (port : Port) (sequence : Option (List Control))
        → field (event_decode realloc ids port sequence) ≡ field port
    unfolding event_decode
    event_decode-field port none = unread port [] port.incoming_events_capacity
    event_decode-field port (some controls) =
        append_controls-field controls (record port { incoming_events = [] })
        ∙ unread port [] port.incoming_events_capacity
