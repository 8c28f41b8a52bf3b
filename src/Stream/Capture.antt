-- ===== src/Stream/Capture.antt =====
-- src/pwf_buffer.c and `pwf_stream_get_dmabuf_planes` of src/pwf_stream_dmabuf.c: one capture cycle.
pub mod Delivery
use tinypipewire.Common.{
  ℕ, Bool, true, false, not, ◌&&◌, Option, none, some, is_some, List, [], ltb, if◌then◌else◌,
}
use tinypipewire.Common.Int.{ℤ, pos, negsuc}
use tinypipewire.Types.{PwBuffer, SpaBuffer, SpaData, Chunk}
use tinypipewire.RateLimit.{RateState, report}
use tinypipewire.Dmabuf.{Plane, dmabuf_buffer_present, dmabuf_extract_planes}
use tinypipewire.Stream.State.{Stream}

-- `struct pwf_stream_buffer`. `bytes` is what its `data` leads to, `none` for a null pointer.
pub record StreamBuffer : Type 0 where
  pub bytes : Option (List ℕ)
  pub size : ℕ
  pub pts : ℤ

-- `data_cb` as the application makes it: what it leaves of the stream.
abbrev pub DataCallback : Type 0
DataCallback = Stream → StreamBuffer → Stream

-- A process callback's outcome: the stream, the buffer queued back, and what the application was given.
pub record Cycle : Type 0 where
  pub stream : Stream
  pub queued : Option PwBuffer
  pub given : Option StreamBuffer

-- `pwf_stream_get_dmabuf_planes`; `none` is a null handle.
unfoldable pub get_dmabuf_planes :
    Option Stream → Option (List Plane) → ℕ → ℕ × Option (List Plane) × Option Stream
get_dmabuf_planes none planes len = (0, planes, none)
get_dmabuf_planes (some stream) planes len = elim stream.current_dmabuf_buf [
  | none ↦ (0, planes, some stream)
  | some buf ↦
      let (n, out) = dmabuf_extract_planes (some buf) planes len in
      (n, out, some (record stream { dmabuf_retrieved = true }))
]

-- The warning of a frame whose descriptor was not read.
warn_unretrieved : Stream → ℕ → Stream
warn_unretrieved stream now =
    if stream.dmabuf_retrieved
    then stream
    else record stream { dmabuf_unretrieved = (report stream.dmabuf_unretrieved now).1 }

-- `pwf_stream_deliver_dmabuf`
unfoldable pub deliver_dmabuf : DataCallback → Stream → SpaBuffer → ℤ → ℕ → Stream
unfolding warn_unretrieved
deliver_dmabuf cb stream buf pts now =
    let offered = record stream { current_dmabuf_buf = some buf; dmabuf_retrieved = false } in
    let after =
      if is_some stream.data_cb
      then cb offered (record { bytes = none; size = 0; pts = pts })
      else offered in
    record (warn_unretrieved after now) { current_dmabuf_buf = none }

-- The size of the region's chunk, 0 without a chunk.
unfoldable pub chunk_size : SpaData → ℕ
chunk_size d = elim d.chunk [ none ↦ 0 | some c ↦ c.size ]

-- `d->data && d->chunk && d->chunk->size > 0 && stream->data_cb`
unfoldable pub deliverable : Stream → SpaData → Bool
unfolding chunk_size
deliverable stream d = is_some d.mapped && ltb 0 (chunk_size d) && is_some stream.data_cb

-- `h ? h->pts : -1`
unfoldable pub capture_pts : SpaBuffer → ℤ
capture_pts buf = elim buf.header_pts [ none ↦ negsuc 0 | some pts ↦ pts ]

-- `pwf_stream_on_process`
unfoldable pub on_process : DataCallback → Stream → Option PwBuffer → ℕ → Cycle
unfolding deliver_dmabuf
on_process cb stream none now = record { stream = stream; queued = none; given = none }
on_process cb stream (some b) now =
    let pts = capture_pts b.buffer in
    let d = b.buffer.datas 0 in
    let frame : StreamBuffer = record { bytes = d.mapped; size = chunk_size d; pts = pts } in
    if stream.use_dmabuf
    then (if dmabuf_buffer_present (some b.buffer)
        then record {
          stream = deliver_dmabuf cb stream b.buffer pts now;
          queued = some b;
          given =
              if is_some stream.data_cb
              then some (record { bytes = none; size = 0; pts = pts })
              else none;
        }
        else record { stream = stream; queued = some b; given = none })
    else (if deliverable stream d
        then record { stream = cb stream frame; queued = some b; given = some frame }
        else record { stream = stream; queued = some b; given = none })
