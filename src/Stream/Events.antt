-- ===== src/Stream/Events.antt =====
-- src/pwf_stream.c: what the events of its PipeWire stream do to a stream.
use tinypipewire.Common.{
  Bool, true, false, not, ◌&&◌, ◌||◌, Option, none, some, is_some, List, if◌then◌else◌,
}
use tinypipewire.Types.{Code, source_unavailable}
use tinypipewire.Wait.{handle_all}
use tinypipewire.Stream.State.{Stream, StreamState}

-- `state == PWF_STREAM_STATE_RUNNING`
abbrev pub is_running : StreamState → Bool
is_running StreamState.running = true
is_running _ = false

-- `enum pw_stream_state`
pub data PwStreamState : Type 0 where
  error unconnected connecting paused streaming : PwStreamState

abbrev pub is_lost : PwStreamState → Bool
is_lost error = true
is_lost unconnected = true
is_lost _ = false

abbrev pub is_live : PwStreamState → Bool
is_live paused = true
is_live streaming = true
is_live _ = false

-- A stream's events, but for `process`. What the application's error callback calls comes after them.
pub data StreamEvent : Type 0 where
  state_changed : PwStreamState → PwStreamState → StreamEvent
  format_changed : (set : Bool) → StreamEvent
  drained : StreamEvent

-- A running stream stops; what its error callback is told, if it has one.
lose : Stream → Option Code × Stream
lose stream =
    if is_running stream.state
    then (
      (if is_some stream.error_cb then some source_unavailable else none),
      record stream { state = StreamState.stopped },
    )
    else (none, stream)

-- `pwf_stream_on_state_changed`, `pwf_stream_on_param_changed` of SPA_PARAM_Format with whether its
-- param is set, and `pwf_stream_on_drained`: what the error callback is told, and the stream.
unfoldable pub on_stream_event : Stream → StreamEvent → Option Code × Stream
unfolding lose
on_stream_event stream (state_changed old new) =
    if is_lost new && is_live old then lose stream else (none, stream)
on_stream_event stream (format_changed set) =
    if not stream.use_dmabuf || set then (none, stream) else lose stream
on_stream_event stream drained = (none, record stream { drained = true })

-- The stream after events that are dispatched one after the other.
unfoldable pub after_events : Stream → List StreamEvent → Stream
unfolding handle_all on_stream_event
after_events stream events = handle_all (λ s e. (on_stream_event s e).1) stream events
