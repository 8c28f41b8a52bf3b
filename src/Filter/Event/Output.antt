-- ===== src/Filter/Event/Output.antt =====
-- Output event ports: what was taken fits the buffer of the cycle.
use tinypipewire.Common.{
  ℕ, ◌-◌, ◌≤◌, ◌≡◌, ◌≢◌, ◌⊎◌, refl, ap, ◌∙◌, Bool, List, [], ◌∷◌, ◌++◌, arith, length,
  length-append, take, take-append,
}
use tinypipewire.Types.{event, ok}
use tinypipewire.Filter.State.{Port, output, Event, PendingEvent}
use tinypipewire.Filter.Event.{
  PropIds, Builder, pending_event_pop_last, pending_of, port_push_event, event_encode,
}
use tinypipewire.Filter.Event.Staging.{pending_event_append-Appended, push_all}

take_but_last :
    (xs : List PendingEvent) (x : PendingEvent)
    → take (length (xs ++ x ∷ []) - 1) (xs ++ x ∷ []) ≡ xs
take_but_last xs x =
    ap (λ n. take n (xs ++ x ∷ [])) (omega (arith, length-append xs (x ∷ [])))
    ∙ take-append xs (x ∷ [])

-- What the port's buffer has to hold is within the size of the buffer that the cycle dequeued.
abbrev pub Room : PropIds → Builder → Port → Type 0
Room ids b port =
    (port.pending_events ≡ [])
    ⊎ (event_encode ids b port.pending_events ≤ port.event_output_capacity)

-- A push on an output event port is taken and staged last, and then everything staged fits the
-- buffer, or it is refused and the staged events are those from before.
pub push-output :
    (ids : PropIds) (b : Builder) (realloc : ℕ → Bool) (malloc : Bool) (port : Port) (ev : Event)
    → port.media_type ≡ event
    → port.direction ≡ output
    → let (next, code) = port_push_event ids b realloc malloc port ev in
      (next.event_output_capacity ≡ port.event_output_capacity)
      × (next.media_type ≡ event)
      × (next.direction ≡ output)
      × (((code ≡ ok)
            × (next.pending_events ≡ port.pending_events ++ pending_of ids ev ∷ [])
            × (event_encode ids b next.pending_events ≤ port.event_output_capacity))
          ⊎ ((code ≢ ok) × (next.pending_events ≡ port.pending_events)))
unfolding port_push_event pending_event_pop_last
push-output ids b realloc malloc port ev m d = ground (
  arith,
  pending_event_append-Appended realloc malloc ids port ev,
  take_but_last port.pending_events (pending_of ids ev),
)

push-Room :
    (ids : PropIds) (b : Builder) (realloc : ℕ → Bool) (malloc : Bool) (port : Port) (ev : Event)
    → port.media_type ≡ event
    → port.direction ≡ output
    → Room ids b port
    → Room ids b (port_push_event ids b realloc malloc port ev).0
push-Room ids b realloc malloc port ev m d r =
    ground (arith, push-output ids b realloc malloc port ev m d)

module _ (ids : PropIds) (b : Builder) where
  -- Pushes on an output event port keep what is staged within the size of its buffer.
  pub push_all-Room :
      (pushes : List ((ℕ → Bool) × Bool × Event)) (port : Port)
      → port.media_type ≡ event
      → port.direction ≡ output
      → Room ids b port
      → let last = (push_all ids b port pushes).0 in
        Room ids b last
        × (last.event_output_capacity ≡ port.event_output_capacity)
        × (last.media_type ≡ event)
        × (last.direction ≡ output)
  unfolding push_all
  push_all-Room [] port m d r = (r, refl, m, d)
  push_all-Room ((realloc, malloc, ev) ∷ pushes) port m d r =
      let next = (port_push_event ids b realloc malloc port ev).0 in
      let kept = push-output ids b realloc malloc port ev m d in
      let rest =
        push_all-Room pushes next kept.1 kept.2 (push-Room ids b realloc malloc port ev m d r) in
      (rest.0, rest.1 ∙ kept.0, rest.2, rest.3)
