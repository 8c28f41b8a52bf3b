-- ===== src/Stream/Playback.antt =====
-- src/pwf_stream_playback.c: filling one cycle from the application and publishing it.
pub mod Fill
pub mod Publish
use tinypipewire.Common.{
  ℕ, zero, suc, ◌+◌, ◌-◌, ◌*◌, ◌/◌, ◌%◌, ◌^◌, Bool, true, false, not, ◌&&◌, ◌||◌, Option, none,
  some, is_some, List, [], ◌∷◌, ◌++◌, take, drop, replicate, ltb, ◌==◌, if◌then◌else◌,
}
use tinypipewire.Common.Int.{ℤ, pos, negsuc, ◌+ℤ◌, not_positive, to_unsigned, to_int}
use tinypipewire.Types.{PwBuffer, SpaData, Chunk}
use tinypipewire.RateLimit.{RateState, report}
use tinypipewire.Stream.State.{Stream}

-- `pwf_stream_cycle_budget_ns`, in 64-bit arithmetic
unfoldable pub cycle_budget_ns : Stream → ℕ → ℕ
cycle_budget_ns stream available =
    if stream.bytes_per_frame == 0 || not_positive stream.audio_format.sample_rate
    then 0
    else (available / stream.bytes_per_frame * 1_000_000_000)
      % 2 ^ 64
      / to_unsigned (2 ^ 64) stream.audio_format.sample_rate

-- What the application makes of a cycle: the stream, the bytes that it reports, and the memory.
abbrev pub PlaybackCallback : Type 0
PlaybackCallback = Stream → List ℕ → ℕ → ℤ → Stream × ℕ × List ℕ

-- After `pwf_stream_playback_fill`: the stream, its result, the memory behind `data`, and the count in
-- the overrun line, if one is logged.
pub record Filled : Type 0 where
  pub stream : Stream
  pub size : ℕ
  pub memory : List ℕ
  pub logged : Option ℕ

-- The clamp and the floor to whole frames.
unfoldable pub usable_size : ℕ → ℕ → ℕ → ℕ
usable_size bytes_per_frame available reported =
    let size = if ltb available reported then available else reported in
    if ltb 0 bytes_per_frame then size - size % bytes_per_frame else size

-- `if (size < available) memset(data + size, 0, available - size);`
unfoldable pub silence : List ℕ → ℕ → ℕ → List ℕ
silence memory size available =
    if ltb size available
    then take size memory ++ (replicate (available - size) 0 ++ drop available memory)
    else memory

-- `pwf_stream_playback_fill`; the last two arguments are the clock before and after the callback.
unfoldable pub playback_fill : PlaybackCallback → Stream → List ℕ → ℕ → ℤ → ℕ → ℕ → Filled
unfolding cycle_budget_ns usable_size silence report
playback_fill cb stream memory available pts started finished =
    let (stream', reported, written) = cb stream memory available pts in
    let size = usable_size stream'.bytes_per_frame available reported in
    let budget = cycle_budget_ns stream' available in
    let (line, overrun') = report stream'.overrun finished in
    let late = ltb 0 budget && ltb budget ((finished + 2 ^ 64 - started) % 2 ^ 64) in
    record {
      stream = if late then record stream' { overrun = overrun' } else stream';
      size = size;
      memory = silence written size available;
      logged = if late then line else none;
    }

-- `struct pw_time`, as far as it is read
pub record PwTime : Type 0 where
  pub now : ℤ
  pub delay : ℤ
  pub queued : ℕ
  pub buffered : ℕ
  pub num : ℕ
  pub denom : ℕ

-- `x * n / d` on signed integers: C divides towards zero.
scale : ℤ → ℕ → ℕ → ℤ
scale (pos x) n d = pos (x * n / d)
scale (negsuc x) n d = let q = (x + 1) * n / d in if q == 0 then pos 0 else negsuc (q - 1)

-- `pwf_stream_playback_pts`; `none` where `pw_stream_get_time_n` fails. No sum or product is taken to
-- leave the range of `int64_t`.
unfoldable pub playback_pts : Option PwTime → ℤ
unfolding scale
playback_pts none = negsuc 0
playback_pts (some t) =
    if t.denom == 0
    then negsuc 0
    else t.now +ℤ scale (t.delay +ℤ pos t.queued +ℤ pos t.buffered) (t.num * 1_000_000_000) t.denom

-- What one process callback leaves: the stream, the buffer queued back, and whether the application
-- was called.
pub record Processed : Type 0 where
  pub stream : Stream
  pub queued : Option PwBuffer
  pub called : Bool

-- What the device asked for, at most the whole region.
unfoldable pub cycle_bytes : Stream → PwBuffer → ℕ → ℕ
cycle_bytes stream b maxsize =
    let wanted = (b.requested * stream.bytes_per_frame) % 2 ^ 64 in
    if ltb 0 b.requested && ltb 0 stream.bytes_per_frame
    then (if ltb wanted maxsize then wanted else maxsize)
    else maxsize

-- The published buffer: the memory as filled, the chunk of the whole cycle, the frames in it.
publish : Stream → PwBuffer → List ℕ → ℕ → PwBuffer
publish stream b memory available = record b {
  buffer = record b.buffer {
    datas = λ i.
        let d = b.buffer.datas i in
        if i == 0
        then record d {
          mapped = some memory;
          chunk = some (record {
            offset = 0;
            size = available % 2 ^ 32;
            stride = to_int stream.bytes_per_frame;
          });
        }
        else d;
  };
  size = if ltb 0 stream.bytes_per_frame then available / stream.bytes_per_frame else 0;
}

-- A region that the application can fill: mapped, not empty, with a chunk, and a callback to fill it.
unfoldable pub writable : Stream → SpaData → Bool
writable stream d =
    is_some d.mapped && not (d.maxsize == 0) && is_some d.chunk && is_some stream.playback_cb

-- `pwf_stream_on_process_playback`. `memory` of a null pointer is never used.
unfoldable pub on_process_playback :
    PlaybackCallback → Stream → Option PwBuffer → Option PwTime → ℕ → ℕ → Processed
unfolding playback_fill playback_pts cycle_bytes publish report
on_process_playback cb stream none time started finished = record {
  stream = stream;
  queued = none;
  called = false;
}
on_process_playback cb stream (some b) time started finished =
    let d = b.buffer.datas 0 in
    let memory : List ℕ = elim d.mapped [ none ↦ [] | some m ↦ m ] in
    let available = cycle_bytes stream b d.maxsize in
    let filled = playback_fill cb stream memory available (playback_pts time) started finished in
    if writable stream d
    then record {
      stream = filled.stream;
      queued = some (publish filled.stream b filled.memory available);
      called = true;
    }
    else record {
      stream = record stream { unusable = (report stream.unusable started).1 };
      queued = some b;
      called = false;
    }
