-- ===== src/Format/Names.antt =====
-- The tables of src/pwf_spa_format.c agree with each other and with src/pwf_audio_format.c.
use tinypipewire.Common.{ℕ, ◌<◌, ◌≤◌, ◌*◌, ◌^◌, String, eq_iff, ◌≡◌, ◌≢◌, some, arith}
use tinypipewire.Common.Int.{pos}
use tinypipewire.Format.{
  AudioFormat, VideoFormat, VideoFormat-discrete, lookup_audio_format, lookup_pixel_format,
  pixel_format_name_or_null, audio_bytes_per_frame,
}

-- A pixel format name that the lookup knows is the name that the reverse lookup gives back.
pub lookup_pixel_format-name :
    (name : String)
    → lookup_pixel_format name ≢ VideoFormat.unknown
    → pixel_format_name_or_null (lookup_pixel_format name) ≡ some name
unfolding lookup_pixel_format pixel_format_name_or_null VideoFormat-discrete
lookup_pixel_format-name name known = ground (
  arith,
  eq_iff "RGB" name,
  eq_iff "YUYV" name,
  eq_iff "NV12" name,
  eq_iff "NV21" name,
  eq_iff "I420" name,
)

-- Every sample format that the lookup knows has a frame size: with any positive number of channels
-- that an `int` holds, it lies between one and four bytes for each channel.
pub audio_bytes_per_frame-bounds :
    (name : String) (channels : ℕ)
    → lookup_audio_format name ≢ AudioFormat.unknown
    → 0 < channels
    → channels < 2 ^ 31
    → let size = audio_bytes_per_frame (lookup_audio_format name) (pos channels) in
      (channels ≤ size) × (size ≤ 4 * channels)
unfolding lookup_audio_format audio_bytes_per_frame
audio_bytes_per_frame-bounds name channels known p q = ground arith
