-- ===== src/Stream/Running.antt =====
-- src/pwf_stream.c: starting and stopping a stream.
pub mod Connected
pub mod States
use tinypipewire.Common.{
  ℕ, Bool, true, false, not, ◌&&◌, ◌||◌, Option, none, some, is_some, List, [], ◌∷◌, ◌++◌,
  if◌then◌else◌,
}
use tinypipewire.Types.{Code, ok, not_configured, source_unavailable, in_callback}
use tinypipewire.Wait.{Waits, await}
use tinypipewire.Stream.State.{Stream, StreamState, Caller, refuse_in_callback}
use tinypipewire.Stream.Events.{StreamEvent, is_running, on_stream_event}
use tinypipewire.Stream.Settings.{Request, set_active, flush, Outcome, refuse}

-- `pwf_stream_start`
unfoldable pub start : Caller → Stream → Outcome
unfolding refuse_in_callback
start caller stream =
    if refuse_in_callback caller stream false
    then refuse in_callback stream
    else if not stream.configured || not stream.pw_stream
    then refuse not_configured stream
    else record {
      code = ok;
      stream = record stream { state = StreamState.running };
      requests = set_active stream.pw_stream true ∷ [];
    }

-- The wait of a draining stop, which ends by the drained event or at its deadline.
unfoldable pub drain_wait : Stream → Waits StreamEvent → Stream
unfolding on_stream_event await
drain_wait stream waits =
    (await (λ s e. (on_stream_event s e).1) (λ s. s.drained) (record stream { drained = false })
      waits).0

-- `pwf_stream_stop`
unfoldable pub stop : Caller → Bool → Waits StreamEvent → Stream → Outcome
unfolding refuse_in_callback
stop caller drain waits stream =
    let waited = if drain then drain_wait stream waits else stream in
    let flushed = if drain then flush stream.pw_stream ∷ [] else [] in
    if refuse_in_callback caller stream drain
    then refuse in_callback stream
    else if not (is_running stream.state)
    then refuse ok stream
    else record {
      code = ok;
      stream = record waited { state = StreamState.stopped };
      requests = flushed ++ (set_active waited.pw_stream false ∷ []);
    }
