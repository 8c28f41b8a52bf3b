-- ===== src/Stream/Playback/Fill.antt =====
-- What reaches the device in one cycle of src/pwf_stream_playback.c.
use tinypipewire.Common.{
  ℕ, ◌+◌, ◌-◌, ◌*◌, ◌/◌, ◌%◌, ◌≤◌, ◌<◌, ◌≡◌, ◌∙◌, ap, List, ◌++◌, arith, take, drop, replicate,
  take-append-drop,
}
use native.Mathlib.Nat.{mul-add-mod_self_left, div-add-mod, zero-mod}
use tinypipewire.Common.Int.{ℤ}
use tinypipewire.Stream.State.{Stream}
use tinypipewire.Stream.Playback.{PlaybackCallback, usable_size, silence, playback_fill}

floored : (frame size : ℕ) → (size - size % frame) % frame ≡ 0
floored frame size =
    ap (λ x. x % frame) {x = size - size % frame} {y = frame * (size / frame) + 0}
      (omega (arith, div-add-mod size frame))
    ∙ mul-add-mod_self_left frame (size / frame) 0
    ∙ zero-mod frame

usable_size_bounds :
    (frame available reported : ℕ)
    → let size = usable_size frame available reported in
      (size ≤ available) × (size ≤ reported) × (0 < frame → size % frame ≡ 0)
unfolding usable_size
usable_size_bounds frame available reported =
    ground (arith, floored frame available, floored frame reported)

silence_lem :
    (memory : List ℕ) (size available : ℕ)
    → size ≤ available
    → silence memory size available
      ≡ take size memory ++ (replicate (available - size) 0 ++ drop available memory)
unfolding silence
silence_lem memory size available h = ground (
  arith,
  take-append-drop size memory,
  ap (λ n. replicate {A = ℕ} n 0) {x = available - size} {y = 0},
  ap (λ n. drop n memory) {x = available} {y = size},
)

-- After the callback of a cycle of `available` bytes reports `reported` bytes and leaves `written` in the
-- memory: the size that the fill returns is at most each of `available` and `reported`, and a whole number
-- of frames if the frame size is known; the memory holds that many of the callback's bytes, zeros up to
-- `available`, and beyond it what was there.
pub playback_fill_lem :
    (cb : PlaybackCallback) (stream : Stream) (memory : List ℕ) (available : ℕ) (pts : ℤ) (t u : ℕ)
    → let after = cb stream memory available pts in
      let filled = playback_fill cb stream memory available pts t u in
      (filled.size ≤ available)
      × (filled.size ≤ after.1)
      × (0 < after.0.bytes_per_frame → filled.size % after.0.bytes_per_frame ≡ 0)
      × (filled.memory
          ≡ take filled.size after.2
            ++ (replicate (available - filled.size) 0 ++ drop available after.2))
unfolding playback_fill
playback_fill_lem cb stream memory available pts t u =
    let after = cb stream memory available pts in
    let bounds = usable_size_bounds after.0.bytes_per_frame available after.1 in
    (bounds.0, bounds.1, bounds.2, silence_lem after.2 _ available bounds.0)
