-- ===== src/Loopback.antt =====
-- The byte ring of src/utils/pwf_stream_loopback.c, which one capture thread writes and one playback thread
-- reads. Each thread sees its own position, and of the other's what its acquire load gives, which may be older.
mod Tests
pub mod Slots
pub mod Fifo
use tinypipewire.Common.{
  ℕ, zero, suc, ◌+◌, ◌-◌, ◌%◌, ◌^◌, Bool, true, false, Option, none, some, List, [], ◌∷◌, ltb, ◌==◌,
  take, if◌then◌else◌,
}

-- `struct loopback_ring`; `data i` is the byte at index i.
pub record LoopbackRing : Type 0 where
  pub data_at : ℕ → ℕ
  pub capacity : ℕ
  pub write_pos : ℕ
  pub read_pos : ℕ
  pub dropped : ℕ

-- `ring_init`, if the allocation succeeds; `ring_destroy` only frees.
unfoldable pub ring_init : Bool → ℕ → Option LoopbackRing
ring_init allocated capacity =
    if allocated
    then some
        (record { data_at = λ i. 0; capacity = capacity; write_pos = 0; read_pos = 0; dropped = 0 })
    else none

-- The index of a position, which is a `size_t`.
abbrev pub slot : ℕ → ℕ → ℕ
slot capacity position = position % 2 ^ 64 % capacity

-- `ring->data[(write_pos + i) % ring->capacity] = src[i]` for each byte
unfoldable pub copy_into : ℕ → (ℕ → ℕ) → ℕ → List ℕ → ℕ → ℕ
copy_into capacity data_at position [] = data_at
copy_into capacity data_at position (b ∷ bytes) =
    copy_into capacity (λ i. if i == slot capacity position then b else data_at i) (suc position)
      bytes

-- `ring_write` of the first `len` bytes behind `src`, with the read position that it sees.
unfoldable pub ring_write : LoopbackRing → ℕ → List ℕ → ℕ → LoopbackRing
unfolding copy_into
ring_write ring seen src len =
    let used = (ring.write_pos + 2 ^ 64 - seen) % 2 ^ 64 in
    let free_space = (ring.capacity + 2 ^ 64 - used) % 2 ^ 64 in
    let kept = if ltb free_space len then free_space else len in
    record ring {
      data_at = copy_into ring.capacity ring.data_at ring.write_pos (take kept src);
      write_pos = (ring.write_pos + kept) % 2 ^ 64;
      dropped =
          if ltb free_space len then (ring.dropped + (len - free_space)) % 2 ^ 64 else ring.dropped;
    }

-- `dst[i] = ring->data[(read_pos + i) % ring->capacity]` for `len` bytes
unfoldable pub copy_out : ℕ → (ℕ → ℕ) → ℕ → ℕ → List ℕ
copy_out capacity data_at position zero = []
copy_out capacity data_at position (suc len) =
    data_at (slot capacity position) ∷ copy_out capacity data_at (suc position) len

-- `ring_read` with the write position that it sees: the bytes, whose number it returns, and the ring.
unfoldable pub ring_read : LoopbackRing → ℕ → ℕ → List ℕ × LoopbackRing
unfolding copy_out
ring_read ring seen len =
    let available = (seen + 2 ^ 64 - ring.read_pos) % 2 ^ 64 in
    let got = if ltb available len then available else len in
    (
      copy_out ring.capacity ring.data_at ring.read_pos got,
      record ring { read_pos = (ring.read_pos + got) % 2 ^ 64 },
    )

-- `on_audio_capture` and `on_audio_playback`: a null pointer is `none`.
unfoldable pub on_audio_capture : LoopbackRing → ℕ → Option (List ℕ) → ℕ → LoopbackRing
on_audio_capture ring seen none size = ring
on_audio_capture ring seen (some src) size =
    if ltb 0 size then ring_write ring seen src size else ring

unfoldable pub on_audio_playback : LoopbackRing → ℕ → ℕ → List ℕ × LoopbackRing
on_audio_playback ring seen available = ring_read ring seen available
