-- ===== src/Format.antt =====
-- src/pwf_spa_format.c (the name tables) and `pwf_audio_bytes_per_frame` of src/pwf_audio_format.c.
pub mod Names
use native.Mathlib.Decide.{ℕ_discrete}
use mathlib.Core.Logic.{ite}
use tinypipewire.Common.{
  ℕ, ◌*◌, ◌%◌, ◌^◌, String, str_eq, Bool, Option, none, some, List, [], ◌∷◌, if◌then◌else◌,
}
use tinypipewire.Common.Int.{ℤ, not_positive, to_unsigned}

-- The values of `enum spa_audio_format` that the library names; `other` is any further one.
pub data AudioFormat : Type 0 where
  unknown u8 s16 s24 s24_32 s32 f32 other : AudioFormat

-- The values of `enum spa_video_format` that the library names; `other` is any further one.
pub data VideoFormat : Type 0 where
  unknown encoded rgb yuy2 nv12 nv21 i420 : VideoFormat
  other : ℕ → VideoFormat

unfoldable pub VideoFormat-discrete : Discrete VideoFormat
VideoFormat-discrete = hlevel ℕ_discrete

-- `pwf_audio_sample_formats`
abbrev pub audio_sample_formats : List (String × AudioFormat)
audio_sample_formats =
    ("U8", AudioFormat.u8)
    ∷ ("S16", AudioFormat.s16)
    ∷ ("S24", AudioFormat.s24)
    ∷ ("S24_32", AudioFormat.s24_32)
    ∷ ("S32", AudioFormat.s32)
    ∷ ("F32", AudioFormat.f32)
    ∷ []

-- The loop of both lookups: the first entry of the name, `missing` if there is none.
find_name : {F : Type 0} → F → List (String × F) → String → F
find_name missing [] name = missing
find_name missing ((n, f) ∷ table) name = if str_eq n name then f else find_name missing table name

unfoldable pub lookup_audio_format : String → AudioFormat
unfolding find_name
lookup_audio_format = find_name AudioFormat.unknown audio_sample_formats

-- `pwf_pixel_formats`
abbrev pub pixel_formats : List (String × VideoFormat)
pixel_formats =
    ("RGB", VideoFormat.rgb)
    ∷ ("YUYV", VideoFormat.yuy2)
    ∷ ("NV12", VideoFormat.nv12)
    ∷ ("NV21", VideoFormat.nv21)
    ∷ ("I420", VideoFormat.i420)
    ∷ []

unfoldable pub lookup_pixel_format : String → VideoFormat
unfolding find_name
lookup_pixel_format = find_name VideoFormat.unknown pixel_formats

find_format : List (String × VideoFormat) → VideoFormat → Option String
find_format [] format = none
find_format ((n, f) ∷ table) format =
    ite (VideoFormat-discrete f format) (some n) (find_format table format)

unfoldable pub pixel_format_name_or_null : VideoFormat → Option String
unfolding find_format VideoFormat-discrete
pixel_format_name_or_null format =
    ite (VideoFormat-discrete format VideoFormat.encoded) (some "MJPG")
      (find_format pixel_formats format)

unfoldable pub pixel_format_name : VideoFormat → String
unfolding pixel_format_name_or_null
pixel_format_name format = elim (pixel_format_name_or_null format) [
  | some name ↦ name
  | none ↦ "unknown"
]

unfoldable pub pixel_format_is_mjpg : String → Bool
pixel_format_is_mjpg name = str_eq name "MJPG"

unfoldable pub pixel_format_is_h264 : String → Bool
pixel_format_is_h264 name = str_eq name "H264"

-- The `switch` of `pwf_audio_bytes_per_frame`: bytes of one sample, 0 for the default case.
sample_size : AudioFormat → ℕ
sample_size AudioFormat.u8 = 1
sample_size AudioFormat.s16 = 2
sample_size AudioFormat.s24 = 3
sample_size AudioFormat.s24_32 = 4
sample_size AudioFormat.s32 = 4
sample_size AudioFormat.f32 = 4
sample_size AudioFormat.unknown = 0
sample_size AudioFormat.other = 0

unfoldable pub audio_bytes_per_frame : AudioFormat → ℤ → ℕ
unfolding sample_size
audio_bytes_per_frame format channels =
    if not_positive channels
    then 0
    else (sample_size format * to_unsigned (2 ^ 64) channels) % 2 ^ 64
