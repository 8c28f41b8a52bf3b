-- ===== src/Filter/Ports.antt =====
-- src/pwf_filter_port.c and the port list of src/pwf_filter.c: a filter, and adding its ports.
use tinypipewire.Common.{
  ℕ, Bool, true, false, not, ◌&&◌, ◌||◌, Option, none, some, is_some, List, [], ◌∷◌, ◌++◌, String,
  length, if◌then◌else◌,
}
use tinypipewire.Common.Int.{pos, not_positive, is_negative}
use tinypipewire.Types.{DataType, PortMemory, Code, ok, invalid_arg}
use tinypipewire.Format.{VideoFormat, lookup_audio_format}
use tinypipewire.Core.{Conn}
use tinypipewire.Stream.Settings.{
  AudioConfig, VideoConfig, audio_format_name, is_unknown_audio, is_unknown_video, wants_dmabuf,
  video_format_name, video_format, is_encoded,
}
use tinypipewire.Filter.State.{PortDirection}
use tinypipewire.Filter.Event.{grown}
use tinypipewire.Filter.Link.{FilterPort, VideoPortState, is_input}

-- `enum pwf_filter_state`
pub data FilterState : Type 0 where
  created running stopped : FilterState

-- `struct pwf_filter`, less the registry, which `Registry` models, and the callback's data. `pw_ports` are
-- the names, by their number, of the ports that PipeWire has for it.
pub record Filter : Type 0 where
  pub name : Option String
  pub state : FilterState
  pub ports : List FilterPort
  pub ports_capacity : ℕ
  pub error_cb : Bool
  pub conn : Conn
  pub pw_filter : Bool
  pub pw_ports : List ℕ
  pub drained : Bool
  pub period_hint_ns : ℕ

abbrev pub is_created : FilterState → Bool
is_created FilterState.created = true
is_created _ = false

abbrev pub is_running : FilterState → Bool
is_running FilterState.running = true
is_running _ = false

-- A port's memory as PipeWire gives it: zeroed, with the fields that each call sets.
abbrev pub new_port : PortDirection → DataType → Bool → ℕ → VideoPortState → FilterPort
new_port direction media_type use_dmabuf name shown = record {
  io = record {
    direction = direction;
    media_type = media_type;
    blocks = λ a. [];
    pushed_data = none;
    pushed_size = 0;
    pushed_capacity = 0;
    pushed_pts = pos 0;
    pushed_pending = false;
    delivered_data = none;
    delivered_capacity = 0;
    incoming_events = [];
    incoming_events_capacity = 0;
    pending_events = [];
    pending_events_capacity = 0;
    event_output_capacity = 0;
    delivering_events = [];
    delivering_events_capacity = 0;
    use_dmabuf = use_dmabuf;
    current_dmabuf_buf = none;
    hold_enabled = false;
    has_held = false;
    held = none;
    held_dmabuf_buf = none;
    held_data = none;
    held_size = 0;
    held_pts = pos 0;
    update_seq = 0;
  };
  link = record {
    own_global_id = 0;
    link_proxy = false;
    link_state_seen_active = false;
    link_lost = false;
    loss_reported = false;
    link_wait = none;
  };
  video = shown;
  pw_port_name = name;
}

-- A port that is not for video
abbrev pub no_video : VideoPortState
no_video = record { width = pos 0; height = pos 0; format = VideoFormat.unknown }

-- What adding a port meets: whether the properties can be made, whether PipeWire gives a port, and which
-- growth of the list succeeds.
pub record Adding : Type 0 where
  pub properties : Bool
  pub added : Bool
  pub realloc : ℕ → Bool

-- `pwf_filter_add_port_to_list`: whether it succeeds, and the filter.
unfoldable pub add_port_to_list : (ℕ → Bool) → Filter → FilterPort → Bool × Filter
add_port_to_list realloc filter port =
    elim (grown realloc (length filter.ports) filter.ports_capacity) [
      | none ↦ (false, filter)
      | some capacity ↦
          (true, record filter { ports = filter.ports ++ port ∷ []; ports_capacity = capacity })
    ]

-- `pwf_filter_add_port_common` and what every call does after it: whether the caller gets a port, and the
-- filter. `make` gives the port of a name.
unfoldable pub add_port : Adding → (ℕ → FilterPort) → Filter → Bool × Filter
add_port env make filter =
    let name = length filter.ports in
    let known = record filter { pw_ports = filter.pw_ports ++ name ∷ [] } in
    if not env.properties || not env.added
    then (false, filter)
    else add_port_to_list env.realloc known (make name)

-- `pwf_filter_add_audio_port`; null arguments and refusals give no port.
unfoldable pub add_audio_port : Adding → PortDirection → Option AudioConfig → Filter → Bool × Filter
add_audio_port env direction none filter = (false, filter)
add_audio_port env direction (some config) filter =
    if not (is_created filter.state)
    then (false, filter)
    else if not_positive config.sample_rate || not_positive config.channels
    then (false, filter)
    else if is_unknown_audio (lookup_audio_format (audio_format_name config))
    then (false, filter)
    else add_port env (λ name. new_port direction DataType.audio false name no_video) filter

-- `pwf_filter_add_signal_port` and `pwf_filter_add_event_port`
unfoldable pub add_signal_port : Adding → PortDirection → Filter → Bool × Filter
add_signal_port env direction filter =
    if not (is_created filter.state)
    then (false, filter)
    else add_port env (λ name. new_port direction DataType.signal false name no_video) filter

unfoldable pub add_event_port : Adding → PortDirection → Filter → Bool × Filter
add_event_port env direction filter =
    if not (is_created filter.state)
    then (false, filter)
    else add_port env (λ name. new_port direction DataType.event false name no_video) filter

-- `pwf_filter_add_video_port_ex`; the options are their memory, `none` for null.
unfoldable pub add_video_port_ex :
    Adding → PortDirection → Option VideoConfig → Option PortMemory → Filter → Bool × Filter
add_video_port_ex env direction none opts filter = (false, filter)
add_video_port_ex env direction (some config) opts filter =
    let name = video_format_name config in
    let want_dmabuf = wants_dmabuf opts in
    let format = video_format name in
    let shown : VideoPortState = record {
      width = config.width;
      height = config.height;
      format = format;
    } in
    if not (is_some config.pixel_format) || not (is_created filter.state)
    then (false, filter)
    else if not_positive config.width || not_positive config.height || is_negative config.fps
    then (false, filter)
    else if want_dmabuf && not (is_input direction)
    then (false, filter)
    else if is_encoded name && want_dmabuf
    then (false, filter)
    else if is_unknown_video format
    then (false, filter)
    else add_port env (λ name. new_port direction DataType.video want_dmabuf name shown) filter

-- `pwf_filter_port_set_hold` on a port of a filter in the state
unfoldable pub port_set_hold : FilterState → Bool → FilterPort → Code × FilterPort
port_set_hold state enable port =
    if not (is_input port.io.direction)
    then (invalid_arg, port)
    else if not (is_created state)
    then (invalid_arg, port)
    else (ok, record port { io = record port.io { hold_enabled = enable } })

-- `pwf_filter_port_get_type`
unfoldable pub port_get_type : Option FilterPort → DataType
port_get_type none = DataType.audio
port_get_type (some port) = port.io.media_type
