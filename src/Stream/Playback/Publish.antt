-- ===== src/Stream/Playback/Publish.antt =====
-- What src/pwf_stream_playback.c queues back at the end of a cycle.
use tinypipewire.Common.{◌≤◌, ◌≡◌, true, false, some}
use tinypipewire.Types.{PwBuffer, Chunk}
use tinypipewire.Stream.State.{Stream}
use tinypipewire.Stream.Playback.{PlaybackCallback, cycle_bytes, writable, Processed}

-- What a processed cycle shows of the buffer b that it dequeued. The buffer that goes back has b's address
-- and a first region of the same type and size. If the region was writable the application was called, and
-- the region's chunk starts at 0 and spans what the device asked for, at most the region. If it was not,
-- the application was not called, and the stream's overrun record is as before.
abbrev pub Settled : PlaybackCallback → Stream → PwBuffer → Processed → Type 0
Settled cb stream b p =
    let d = b.buffer.datas 0 in
    (s : PwBuffer) × (p.queued ≡ some s)
    × (s.address ≡ b.address)
    × ((s.buffer.datas 0).maxsize ≡ d.maxsize)
    × (p.called ≡ writable stream d)
    × (writable stream d ≡ true
        → (c : Chunk) × ((s.buffer.datas 0).chunk ≡ some c)
          × (c.offset ≡ 0)
          × (c.size ≡ cycle_bytes stream b d.maxsize)
          × (c.size ≤ d.maxsize))
    × (writable stream d ≡ false → (s ≡ b) × (p.stream.overrun ≡ stream.overrun))
