-- ===== src/Filter/Lifecycle.antt =====
-- src/pwf_filter.c: the life of a filter. Each operation returns its code, the filter, and what it asks of
-- PipeWire.
mod Tests
pub mod Stopped
pub mod Sound
use tinypipewire.Common.{
  ℕ, ◌+◌, ◌-◌, ◌*◌, ◌/◌, ◌%◌, ◌^◌, Bool, true, false, not, ◌&&◌, ◌||◌, Option, none, some, is_some,
  List, [], ◌∷◌, ◌++◌, String, map, length, get_elem?, set, ltb, ◌==◌, if◌then◌else◌,
}
use tinypipewire.Common.Int.{ℤ, is_negative}
use tinypipewire.Types.{
  Code, ok, invalid_arg, connect_failed, not_configured, in_callback, PwBuffer,
}
use tinypipewire.Wait.{Waits, await}
use tinypipewire.Stream.State.{Caller}
use tinypipewire.Filter.State.{Port}
use tinypipewire.Filter.Link.{FilterPort, PortLink, LinkEvent, on_link_event, Effect, link_release}
use tinypipewire.Filter.Ports.{Filter, FilterState, is_created, is_running}

-- `pwf_filter_refuse_in_callback`
unfoldable pub filter_refuse_in_callback : Caller → Filter → Bool → Bool
filter_refuse_in_callback caller filter loop_thread_too =
    caller.in_callback || (loop_thread_too && filter.conn.loop && caller.on_loop_thread)

-- What is asked of PipeWire: a latency with its numerator, a connection, activity, a flush, a buffer that
-- goes back, by its address, and the end of a link.
pub data FilterRequest : Type 0 where
  latency : ℕ → FilterRequest
  connect : FilterRequest
  set_active : Bool → FilterRequest
  flush : FilterRequest
  queue : ℕ → FilterRequest
  destroy_link : FilterRequest

pub record FilterOutcome : Type 0 where
  pub code : Code
  pub filter : Filter
  pub requests : List FilterRequest

-- An early return.
abbrev pub refuse_filter : Code → Filter → FilterOutcome
refuse_filter code filter = record { code = code; filter = filter; requests = [] }

-- `pwf_filter_set_error_callback`
unfoldable pub filter_set_error_callback : Bool → Filter → FilterOutcome
filter_set_error_callback cb filter = record {
  code = ok;
  filter = record filter { error_cb = cb };
  requests = [];
}

-- `pwf_filter_set_period_hint`
unfoldable pub set_period_hint : ℕ → Filter → FilterOutcome
set_period_hint max_period_ns filter =
    if is_created filter.state
    then record {
      code = ok;
      filter = record filter { period_hint_ns = max_period_ns };
      requests = [];
    }
    else refuse_filter invalid_arg filter

-- `pwf_filter_period_hint_num`; the product of 32 bits and 48000 fits 64 bits.
unfoldable pub period_hint_num : ℕ → ℕ
period_hint_num period_ns =
    let num = period_ns * 48000 / 1_000_000_000 in if ltb num 1 then 1 else num % 2 ^ 32

-- `pwf_filter_apply_period_hint`
unfoldable pub apply_period_hint : Filter → List FilterRequest
apply_period_hint filter =
    if filter.period_hint_ns == 0 then [] else latency (period_hint_num filter.period_hint_ns) ∷ []

-- `pwf_filter_start`; the number is the result of `pw_filter_connect`.
unfoldable pub filter_start : Caller → ℤ → Filter → FilterOutcome
unfolding apply_period_hint
filter_start caller result filter =
    let running = record filter { state = FilterState.running } in
    let asked = apply_period_hint filter ++ (connect ∷ []) in
    if filter_refuse_in_callback caller filter false
    then refuse_filter in_callback filter
    else if length filter.ports == 0
    then refuse_filter not_configured filter
    else if is_created filter.state
    then (if is_negative result
        then record { code = connect_failed; filter = filter; requests = asked }
        else record { code = ok; filter = running; requests = asked })
    else record { code = ok; filter = running; requests = set_active true ∷ [] }

-- A filter's ports after a cycle that leaves `ios` of them.
unfoldable pub write_back : List FilterPort → List Port → List FilterPort
write_back [] ios = []
write_back (p ∷ ports) [] = p ∷ ports
write_back (p ∷ ports) (io ∷ ios) = record p { io = io } ∷ write_back ports ios

-- A filter's events: it has drained, the port at an index has one, or there was a process callback, with
-- what it leaves of the ports. PipeWire calls it only while the filter is active, which is while it runs.
pub data FilterEvent : Type 0 where
  drained : FilterEvent
  at_port : ℕ → LinkEvent → FilterEvent
  cycled : (List FilterPort → List Port) → FilterEvent

unfoldable pub on_filter_event :
    (ℤ → ℤ → Bool) → Filter × List Effect → FilterEvent → Filter × List Effect
unfolding write_back
on_filter_event same (filter, effects) drained = (record filter { drained = true }, effects)
on_filter_event same (filter, effects) (at_port i e) = elim (get_elem? filter.ports i) [
  | none ↦ (filter, effects)
  | some port ↦
      let next = on_link_event same (is_running filter.state) filter.error_cb port e in
      (record filter { ports = set filter.ports i next.0 }, effects ++ next.1)
]
on_filter_event same (filter, effects) (cycled leaves) =
    if is_running filter.state
    then (record filter { ports = write_back filter.ports (leaves filter.ports) }, effects)
    else (filter, effects)

-- The wait of a draining stop.
unfoldable pub filter_drain : (ℤ → ℤ → Bool) → Filter → Waits FilterEvent → Filter × List Effect
filter_drain same filter waits =
    (await (on_filter_event same) (λ s. s.0.drained) (record filter { drained = false }, [])
      waits).0

-- What stopping does to one port: it holds nothing any more.
unfoldable pub stop_port : FilterPort → FilterPort
stop_port port = record port {
  io = record port.io {
    held = none;
    has_held = false;
    held_data = none;
    held_dmabuf_buf = none;
    current_dmabuf_buf = none;
  };
}

-- `if (port->held) pw_filter_queue_buffer(port, port->held);` over the ports
unfoldable pub queue_held : List FilterPort → List FilterRequest
queue_held [] = []
queue_held (port ∷ ports) =
    elim port.io.held [ none ↦ [] | some b ↦ queue b.address ∷ [] ] ++ queue_held ports

-- `pwf_filter_release_all_links`: the ports, and the links that end.
unfoldable pub release_links : List FilterPort → List FilterPort × List FilterRequest
unfolding link_release
release_links [] = ([], [])
release_links (port ∷ ports) =
    let released = link_release port.link in
    let rest = release_links ports in
    (
      record port { link = released.0 } ∷ rest.0,
      (if released.1 then destroy_link ∷ [] else []) ++ rest.1,
    )

unfoldable pub release_all_links : Filter → Filter × List FilterRequest
release_all_links filter =
    let released = release_links filter.ports in
    if filter.conn.loop then (record filter { ports = released.0 }, released.1) else (filter, [])

-- What `pwf_filter_stop` does after the wait.
unfoldable pub finish_stop : Filter → List FilterRequest → FilterOutcome
finish_stop filter asked =
    let paused = record filter {
      ports = map stop_port filter.ports;
      state = FilterState.stopped;
    } in
    let released = release_all_links paused in
    record {
      code = ok;
      filter = released.0;
      requests = asked ++ (set_active false ∷ queue_held filter.ports) ++ released.1;
    }

-- `pwf_filter_stop`
unfoldable pub filter_stop :
    (ℤ → ℤ → Bool) → Caller → Bool → Waits FilterEvent → Filter → FilterOutcome
filter_stop same caller drain waits filter =
    let waited = if drain then (filter_drain same filter waits).0 else filter in
    if filter_refuse_in_callback caller filter drain
    then refuse_filter in_callback filter
    else if not (is_running filter.state)
    then refuse_filter ok filter
    else finish_stop waited (if drain then flush ∷ [] else [])
