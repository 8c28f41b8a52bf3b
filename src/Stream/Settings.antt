-- ===== src/Stream/Settings.antt =====
-- src/pwf_stream.c, src/pwf_audio_format.c and src/pwf_video_format.c: the settings, the formats, and the
-- running state of a stream. Each operation returns its code, the stream, and what it asks of PipeWire.
use tinypipewire.Common.{
  ℕ, Bool, true, false, not, ◌&&◌, ◌||◌, Option, none, some, is_some, List, [], ◌∷◌, String,
  if◌then◌else◌, str_eq,
}
use tinypipewire.Common.Int.{ℤ, not_positive, is_negative}
use tinypipewire.Types.{
  DataType, PortMemory, Code, ok, invalid_arg, connect_failed, invalid_format, in_callback,
  no_memory,
}
use tinypipewire.Format.{
  AudioFormat, VideoFormat, lookup_audio_format, lookup_pixel_format, pixel_format_is_mjpg,
  pixel_format_is_h264, audio_bytes_per_frame,
}
use tinypipewire.Stream.Events.{StreamEvent, after_events}
use tinypipewire.Stream.State.{Stream, StreamState, StreamDirection, Caller, refuse_in_callback}

-- What is asked of PipeWire, with whether the stream pointer that is passed is set.
pub data Request : Type 0 where
  set_active : (pointer : Bool) → Bool → Request
  flush : (pointer : Bool) → Request

pub record Outcome : Type 0 where
  pub code : Code
  pub stream : Stream
  pub requests : List Request

-- An early return.
abbrev pub refuse : Code → Stream → Outcome
refuse code stream = record { code = code; stream = stream; requests = [] }

abbrev pub is_audio : DataType → Bool
is_audio DataType.audio = true
is_audio _ = false

abbrev pub is_video : DataType → Bool
is_video DataType.video = true
is_video _ = false

abbrev pub is_playback : StreamDirection → Bool
is_playback StreamDirection.playback = true
is_playback _ = false

-- `value && *value`
unfoldable pub has_text : Option String → Bool
has_text none = false
has_text (some s) = not (str_eq s "")

-- `pwf_stream_replace_string` on one slot: `copied` says whether `strdup` succeeds.
unfoldable pub replace_string : Bool → Option String → Option String → Code × Option String
unfolding has_text
replace_string copied slot value =
    if has_text value then (if copied then (ok, value) else (no_memory, slot)) else (ok, none)

-- `pwf_stream_set_error_callback`
unfoldable pub set_error_callback : Option ℕ → Stream → Outcome
set_error_callback callback stream = record {
  code = ok;
  stream = record stream { error_cb = callback };
  requests = [];
}

-- `pwf_stream_set_autoconnect`
unfoldable pub set_autoconnect : Bool → Stream → Outcome
set_autoconnect enable stream =
    if stream.pw_stream
    then refuse invalid_arg stream
    else if not enable && is_some stream.target
    then refuse invalid_arg stream
    else record { code = ok; stream = record stream { autoconnect = enable }; requests = [] }

-- `pwf_stream_set_target`
unfoldable pub set_target : Bool → Option String → Stream → Outcome
unfolding replace_string has_text
set_target copied target stream =
    let replaced = replace_string copied stream.target target in
    if has_text target && not stream.autoconnect
    then refuse invalid_arg stream
    else record { code = replaced.0; stream = record stream { target = replaced.1 }; requests = [] }

-- `pwf_stream_set_role`
unfoldable pub set_role : Bool → Option String → Stream → Outcome
unfolding replace_string
set_role copied role stream =
    let replaced = replace_string copied stream.role role in
    record { code = replaced.0; stream = record stream { role = replaced.1 }; requests = [] }

-- What PipeWire returns while a stream is connected: whether `pw_stream_new` gives one, and the result of
-- `pw_stream_connect`, and the events that are dispatched while the stream from before, or the new one
-- after a failed `pw_stream_connect`, is destroyed.
pub record Connecting : Type 0 where
  pub destroying : List StreamEvent
  pub aborting : List StreamEvent
  pub made : Bool
  pub result : ℤ

-- `pwf_stream_internal_connect`
unfoldable pub internal_connect : Connecting → Bool → Stream → Outcome
internal_connect env use_dmabuf stream =
    let destroyed = after_events (record stream { use_dmabuf = false }) env.destroying in
    let old = if stream.pw_stream then record destroyed { pw_stream = false } else stream in
    if not env.made
    then refuse connect_failed old
    else if is_negative env.result
    then refuse connect_failed (record (after_events old env.aborting) { pw_stream = false })
    else record {
      code = ok;
      stream = record old { pw_stream = true; use_dmabuf = use_dmabuf };
      requests = set_active true false ∷ [];
    }

-- `struct pwf_audio_config`
pub record AudioConfig : Type 0 where
  pub sample_rate : ℤ
  pub channels : ℤ
  pub format : Option String

-- The part of `pwf_stream_set_audio_config` after its guards.
unfoldable pub connect_audio : Connecting → AudioConfig → AudioFormat → Stream → Outcome
unfolding internal_connect
connect_audio env config format stream =
    let connected = internal_connect env false stream in
    elim connected.code [
      | ok ↦ record connected {
        stream = record connected.stream {
          audio_format = record {
            sample_rate = config.sample_rate;
            channels = config.channels;
            format = format;
          };
          bytes_per_frame = audio_bytes_per_frame format config.channels;
          configured = true;
          state = StreamState.format_set;
        };
      }
      | _ ↦ connected
    ]

abbrev pub is_unknown_audio : AudioFormat → Bool
is_unknown_audio AudioFormat.unknown = true
is_unknown_audio _ = false

abbrev pub is_unknown_video : VideoFormat → Bool
is_unknown_video VideoFormat.unknown = true
is_unknown_video _ = false

-- `config->format ? config->format : "S16"`
abbrev pub audio_format_name : AudioConfig → String
audio_format_name config = elim config.format [ none ↦ "S16" | some name ↦ name ]

-- `pwf_stream_set_audio_config`; a null configuration is `none`.
unfoldable pub set_audio_config : Caller → Connecting → Option AudioConfig → Stream → Outcome
set_audio_config caller env none stream = refuse invalid_arg stream
set_audio_config caller env (some config) stream =
    let format = lookup_audio_format (audio_format_name config) in
    if not (is_audio stream.type)
    then refuse invalid_arg stream
    else if refuse_in_callback caller stream true
    then refuse in_callback stream
    else if not_positive config.sample_rate || not_positive config.channels
    then refuse invalid_format stream
    else if is_unknown_audio format
    then refuse invalid_format stream
    else connect_audio env config format stream

-- `struct pwf_video_config`
pub record VideoConfig : Type 0 where
  pub width : ℤ
  pub height : ℤ
  pub fps : ℤ
  pub pixel_format : Option String

-- The part of `pwf_stream_set_video_config_ex` after its guards.
unfoldable pub connect_video : Connecting → VideoConfig → VideoFormat → Bool → Stream → Outcome
unfolding internal_connect
connect_video env config format use_dmabuf stream =
    let connected = internal_connect env use_dmabuf stream in
    elim connected.code [
      | ok ↦ record connected {
        stream = record connected.stream {
          video_format = record { width = config.width; height = config.height; format = format };
          configured = true;
          state = StreamState.format_set;
        };
      }
      | _ ↦ connected
    ]

-- `opts->memory == PWF_PORT_MEMORY_DMABUF`
abbrev pub is_dmabuf : PortMemory → Bool
is_dmabuf PortMemory.dmabuf = true
is_dmabuf _ = false

-- `opts && opts->memory == PWF_PORT_MEMORY_DMABUF`
unfoldable pub wants_dmabuf : Option PortMemory → Bool
wants_dmabuf none = false
wants_dmabuf (some m) = is_dmabuf m

-- `config->pixel_format`, where it is not null
unfoldable pub video_format_name : VideoConfig → String
video_format_name config = elim config.pixel_format [ none ↦ "" | some name ↦ name ]

-- `is_encoded`
unfoldable pub is_encoded : String → Bool
is_encoded name = pixel_format_is_mjpg name || pixel_format_is_h264 name

-- `fmt`
unfoldable pub video_format : String → VideoFormat
video_format name = if is_encoded name then VideoFormat.encoded else lookup_pixel_format name

-- `pwf_stream_set_video_config_ex`: the options are their memory, `none` for null.
unfoldable pub set_video_config_ex :
    Caller → Connecting → Option VideoConfig → Option PortMemory → Stream → Outcome
set_video_config_ex caller env none opts stream = refuse invalid_arg stream
set_video_config_ex caller env (some config) opts stream =
    let name = video_format_name config in
    let use_dmabuf = wants_dmabuf opts in
    let format = video_format name in
    if not (is_video stream.type) || not (is_some config.pixel_format)
    then refuse invalid_arg stream
    else if refuse_in_callback caller stream true
    then refuse in_callback stream
    else if is_playback stream.direction
    then refuse invalid_arg stream
    else if not_positive config.width || not_positive config.height || is_negative config.fps
    then refuse invalid_format stream
    else if is_encoded name && use_dmabuf
    then refuse invalid_arg stream
    else if is_unknown_video format
    then refuse invalid_format stream
    else connect_video env config format use_dmabuf stream
