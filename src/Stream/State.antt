-- ===== src/Stream/State.antt =====
-- `struct pwf_stream` of src/pwf_stream_internal.h.
use tinypipewire.Common.{ℕ, Bool, ◌&&◌, ◌||◌, String, Option, List}
use tinypipewire.Common.Int.{ℤ}
use tinypipewire.Types.{DataType, SpaBuffer}
use tinypipewire.Format.{AudioFormat, VideoFormat}
use tinypipewire.RateLimit.{RateState}

-- `enum pwf_stream_state`
pub data StreamState : Type 0 where
  created format_set running stopped : StreamState

-- `enum pwf_stream_direction`
pub data StreamDirection : Type 0 where
  capture playback : StreamDirection

-- `struct pwf_audio_format_state`
pub record AudioFormatState : Type 0 where
  pub sample_rate : ℤ
  pub channels : ℤ
  pub format : AudioFormat

-- `struct pwf_video_format_state`
pub record VideoFormatState : Type 0 where
  pub width : ℤ
  pub height : ℤ
  pub format : VideoFormat

-- `struct pwf_stream_link_set`: which links of its array have a proxy, how many of them count, and the
-- device's node.
pub record LinkSet : Type 0 where
  pub proxies : List Bool
  pub n_links : ℕ
  pub target_node_id : ℕ

-- `struct pwf_stream`. A stream only uses the member of the format union that its type names, so the
-- two stand side by side. Callbacks are their addresses; `loop` and `pw_stream` say whether the pointer
-- is set; the registry and the rest of the connection are modelled in `Registry` and `Core`.
pub record Stream : Type 0 where
  pub type : DataType
  pub direction : StreamDirection
  pub state : StreamState
  pub configured : Bool
  pub audio_format : AudioFormatState
  pub video_format : VideoFormatState
  pub bytes_per_frame : ℕ
  pub overrun : RateState
  pub unusable : RateState
  pub drained : Bool
  pub use_dmabuf : Bool
  pub current_dmabuf_buf : Option SpaBuffer
  pub dmabuf_retrieved : Bool
  pub dmabuf_unretrieved : RateState
  pub data_cb : Option ℕ
  pub playback_cb : Option ℕ
  pub error_cb : Option ℕ
  pub target : Option String
  pub role : Option String
  pub autoconnect : Bool
  pub links : Option LinkSet
  pub loop : Bool
  pub pw_stream : Bool

-- Where a call is made from: inside the stream's own data or playback callback, and on its loop thread.
pub record Caller : Type 0 where
  pub in_callback : Bool
  pub on_loop_thread : Bool

-- `pwf_stream_refuse_in_callback`
unfoldable pub refuse_in_callback : Caller → Stream → Bool → Bool
refuse_in_callback caller stream loop_thread_too =
    caller.in_callback || (loop_thread_too && stream.loop && caller.on_loop_thread)
