-- ===== src/Stream/Capture/Delivery.antt =====
-- What the application sees of a captured frame in src/pwf_buffer.c.
use tinypipewire.Common.{ℕ, ◌≡◌, refl, true, Option, none, some, is_some, List, arith, length}
use tinypipewire.Common.Int.{ℤ}
use tinypipewire.Types.{PwBuffer, SpaBuffer}
use tinypipewire.RateLimit.{report}
use tinypipewire.Dmabuf.{Plane}
use tinypipewire.Stream.State.{Stream}
use tinypipewire.Stream.Capture.{
  StreamBuffer, DataCallback, get_dmabuf_planes, deliver_dmabuf, chunk_size, capture_pts,
  on_process,
}

-- The application of a DMABUF frame: it asks for the planes, into an array of its own.
abbrev pub reading : List Plane → DataCallback
reading out stream frame = elim (get_dmabuf_planes (some stream) (some out) (length out)).2 [
  | none ↦ stream
  | some s ↦ s
]

-- Whatever the application does, a cycle queues back the buffer that it dequeued, unchanged, and leaves no
-- frame's descriptor within reach: after it `pwf_stream_get_dmabuf_planes` finds no planes and leaves the
-- caller's array as it was, provided that none was within reach before it and the callback does not put
-- one there itself.
pub on_process-releases :
    (cb : DataCallback) (stream : Stream) (b : PwBuffer) (now : ℕ) (planes : Option (List Plane))
    (len : ℕ)
    → stream.current_dmabuf_buf ≡ none
    → ((s : Stream) (f : StreamBuffer) → (cb s f).current_dmabuf_buf ≡ s.current_dmabuf_buf)
    → let after = on_process cb stream (some b) now in
      (after.queued ≡ some b)
      × (get_dmabuf_planes (some after.stream) planes len ≡ (0, planes, some after.stream))
unfolding on_process get_dmabuf_planes deliver_dmabuf
on_process-releases cb stream b now planes len h keeps = ground (
  arith,
  keeps stream (record {
    bytes = (b.buffer.datas 0).mapped;
    size = chunk_size (b.buffer.datas 0);
    pts = capture_pts b.buffer;
  }),
)

-- For a DMABUF stream with a callback, a frame whose planes the application asks for, into an array of any
-- length, adds nothing to the record of unread frames; a frame that it ignores is reported there, at the
-- time of the cycle.
pub deliver_dmabuf-reading :
    (stream : Stream) (out : List Plane) (buf : SpaBuffer) (pts : ℤ) (now : ℕ)
    → is_some stream.data_cb ≡ true
    → ((deliver_dmabuf (reading out) stream buf pts now).dmabuf_unretrieved
        ≡ stream.dmabuf_unretrieved)
      × ((deliver_dmabuf (λ s f. s) stream buf pts now).dmabuf_unretrieved
          ≡ (report stream.dmabuf_unretrieved now).1)
unfolding deliver_dmabuf get_dmabuf_planes
deliver_dmabuf-reading stream out buf pts now h = (rw h refl, rw h refl)
