-- ===== src/Stream/Session.antt =====
-- src/pwf_stream.c: creating a stream, and destroying it.
mod Tests
pub mod Balanced
use tinypipewire.Common.{
  ℕ, ◌+◌, Bool, true, false, not, ◌&&◌, ◌||◌, Option, none, some, is_some, List, [], ◌∷◌, ◌++◌,
  if◌then◌else◌,
}
use tinypipewire.Common.Int.{ℤ, pos, is_negative}
use tinypipewire.Types.{DataType}
use tinypipewire.Format.{AudioFormat, VideoFormat}
use tinypipewire.RateLimit.{RateState}
use tinypipewire.Wait.{Waits}
use tinypipewire.Stream.Links.{release_links}
use tinypipewire.Core.{
  Conn, ConnectEnv, CoreCall, lock, unlock, GlobalCall, core_connect, core_teardown, global_deinit,
}
use tinypipewire.Core.Opened.{zeroed, Opened, give_up, tear_down, succeed}
use tinypipewire.Registry.{Registry, teardown}
use tinypipewire.Stream.State.{Stream, StreamState, StreamDirection, Caller, refuse_in_callback}
use tinypipewire.Stream.Settings.{Request, Outcome, is_audio, is_video}
use tinypipewire.Stream.Events.{StreamEvent, is_running}
use tinypipewire.Stream.Running.{stop}

-- A counter that has not counted
abbrev pub no_lines : RateState
no_lines = record { last_log_ns = 0; suppressed = 0 }

-- What `calloc` and `pwf_stream_alloc` make of a stream whose connection is up.
abbrev pub fresh_stream : DataType → StreamDirection → Conn → Stream
fresh_stream type direction conn = record {
  type = type;
  direction = direction;
  state = StreamState.created;
  configured = false;
  audio_format = record { sample_rate = pos 0; channels = pos 0; format = AudioFormat.unknown };
  video_format = record { width = pos 0; height = pos 0; format = VideoFormat.unknown };
  bytes_per_frame = 0;
  overrun = no_lines;
  unusable = no_lines;
  drained = false;
  use_dmabuf = false;
  current_dmabuf_buf = none;
  dmabuf_retrieved = false;
  dmabuf_unretrieved = no_lines;
  data_cb = none;
  playback_cb = none;
  error_cb = none;
  target = none;
  role = none;
  autoconnect = true;
  links = none;
  loop = conn.loop;
  pw_stream = false;
}

-- `pwf_stream_alloc`: whether the allocation succeeds, and how connecting goes.
unfoldable pub stream_alloc : Bool → ConnectEnv → DataType → StreamDirection → ℤ → Opened Stream
stream_alloc allocated env type direction count =
    let (conn, result, calls) = core_connect zeroed env in
    if not allocated
    then give_up count [] zeroed
    else if is_negative result
    then tear_down count calls conn
    else succeed count calls conn (fresh_stream type direction conn)

-- The callback is attached to the stream, if there is one.
attach : (Stream → Stream) → Opened Stream → Opened Stream
attach f o = record o { handle = elim o.handle [ none ↦ none | some s ↦ some (f s) ] }

-- `pwf_stream_create` and `pwf_stream_create_playback`; `none` where they return before anything is made.
unfoldable pub stream_create : Bool → ConnectEnv → DataType → Option ℕ → ℤ → Option (Opened Stream)
unfolding attach
stream_create allocated env type callback count =
    if not (is_some callback) || (not (is_audio type) && not (is_video type))
    then none
    else some (
        attach (λ s. record s { data_cb = callback })
          (stream_alloc allocated env type StreamDirection.capture count))

unfoldable pub stream_create_playback : Bool → ConnectEnv → Option ℕ → ℤ → Option (Opened Stream)
unfolding attach
stream_create_playback allocated env callback count =
    if not (is_some callback)
    then none
    else some (
        attach (λ s. record s { playback_cb = callback })
          (stream_alloc allocated env DataType.audio StreamDirection.playback count))

-- `pwf_stream_teardown` of a stream with its connection
unfoldable pub stream_teardown : Stream → Conn → (Stream × Conn) × List CoreCall
stream_teardown stream conn =
    let down = core_teardown conn in
    let destroyed = if stream.pw_stream && conn.loop then lock ∷ unlock ∷ [] else [] in
    (
      (record stream { use_dmabuf = false; pw_stream = false; loop = down.0.loop }, down.0),
      destroyed ++ down.1,
    )

-- What destroying a stream leaves: the stream where the call is refused, the count, what is asked of the
-- PipeWire stream, the links whose proxy is destroyed, the registry's caches, the calls and the connection.
pub record StreamDestroyed : Type 0 where
  pub stream : Option Stream
  pub count : ℤ
  pub globals : List GlobalCall
  pub requests : List Request
  pub destroyed : List ℕ
  pub registry : Registry
  pub calls : List CoreCall
  pub last : Conn

-- `pwf_stream_destroy` of a stream that is not null, with its connection, its registry and the count
unfoldable pub stream_destroy :
    Caller → Waits StreamEvent → Stream → Conn → Registry → ℤ → StreamDestroyed
unfolding release_links
stream_destroy caller waits stream conn reg count =
    let stopped = stop caller false waits stream in
    let quiet = if is_running stream.state then stopped.stream else stream in
    let released = release_links quiet in
    let unlinked = if is_some quiet.links then lock ∷ unlock ∷ [] else [] in
    let swept = if conn.loop then lock ∷ unlock ∷ [] else [] in
    let down = stream_teardown released.0 conn in
    let gone = global_deinit count in
    if refuse_in_callback caller stream true
    then record {
      stream = some stream;
      count = count;
      globals = [];
      requests = [];
      destroyed = [];
      registry = reg;
      calls = [];
      last = conn;
    }
    else record {
      stream = none;
      count = gone.0;
      globals = gone.1;
      requests = if is_running stream.state then stopped.requests else [];
      destroyed = released.1;
      registry = if conn.loop then teardown reg else reg;
      calls = unlinked ++ swept ++ down.1;
      last = down.0.1;
    }
