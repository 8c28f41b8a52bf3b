-- ===== src/Video/Tests.antt =====
-- The theorems on the video format enumeration at a camera's formats.
use tinypipewire.Common.{
  ℕ, ◌≡◌, refl, ◌↔◌, true, String, none, some, List, [], ◌∷◌, ◌++◌, length, take, drop, arith,
}
use tinypipewire.Common.Int.{pos}
use tinypipewire.Format.{
  VideoFormat, pixel_format_is_mjpg, pixel_format_is_h264, lookup_pixel_format,
}
use tinypipewire.Video.Framerates.{live, insert_framerate}
use tinypipewire.Video.Framerates.Order.{Descending, Among}
use tinypipewire.Video.Framerates.Sorted.{insert_all, insert_all-fastest, cleared}
use tinypipewire.Video.Enumerate.{
  FormatParam, FormatInfo, choice_none, enum, raw, read_format, scratch,
}
use tinypipewire.Video.Enumerate.CountThenFill.{usable}
use tinypipewire.Core.{done}
use tinypipewire.Core.Opened.{zeroed}
use tinypipewire.Registry.{unbound}
use tinypipewire.Registry.Bind.{Bound, at_core}
use tinypipewire.Video.Request.{
  FormatRequest, param, at_registry, params, answers, enum_video_formats, enum_video_formats_fills,
}
use tinypipewire.Video.Enumerate.Accepted.{read_format-Requestable, Requestable, RatesOk}

abbrev offered : List ℕ
offered = 30 ∷ 60 ∷ 15 ∷ 30 ∷ []

-- YUY2 at 640x480, with 15 and 30 frames a second.
abbrev yuy2_format : FormatParam
yuy2_format = record {
  subtype = some raw;
  format = some (record { choice = choice_none; entries = some (VideoFormat.yuy2 ∷ []) });
  size = some (record { choice = choice_none; entries = some ((640, 480) ∷ []) });
  framerate = some (record { choice = enum; entries = some ((30, 1) ∷ (15, 1) ∷ (30, 1) ∷ []) });
}

abbrev yuy2_info : FormatInfo
yuy2_info = record {
  pixel_format = "YUYV";
  width = pos 640;
  height = pos 480;
  width_max = pos 640;
  height_max = pos 480;
  rates = record { fps = 30 ∷ 15 ∷ 0 ∷ 0 ∷ 0 ∷ 0 ∷ 0 ∷ 0 ∷ []; n_fps = 2 };
}

abbrev one_place : List FormatInfo
one_place = scratch ∷ []

insert_all-fastest_example :
    (all : List ℕ) × Descending all
    × ((r : ℕ) → Among r all ↔ Among r offered)
    × (live (insert_all (cleared 3) offered) ≡ take 3 all)
insert_all-fastest_example = insert_all-fastest 3 offered

read_format-Requestable_example : Requestable yuy2_info.pixel_format × RatesOk yuy2_info.rates
unfolding read_format insert_framerate tinypipewire.Format.pixel_format_name_or_null
read_format-Requestable_example = read_format-Requestable yuy2_format {info = yuy2_info} refl

-- A node of a camera, while the request for its formats is answered.
abbrev camera : Bound
camera = record {
  registry = record unbound { bound = true };
  conn = record zeroed { loop = true; context = true; core = true };
}

abbrev request : FormatRequest
request = record {
  made = true;
  seq = 5;
  waits = record {
    woken =
        (param true (some yuy2_format) ∷ param true none ∷ [])
        ∷ (param true (some yuy2_format) ∷ at_registry (at_core (done true 5)) ∷ [])
        ∷ [];
    late = [];
  };
}

abbrev no_number : String → ℕ
no_number s = 0

enum_video_formats_fills_example :
    let formats = usable (params no_number 110 (answers no_number 110 request one_place camera)) in
    let r = enum_video_formats no_number 110 request 40 (some one_place) camera in
    (r.found ≡ length formats)
    × (r.written ≡ some (take (length one_place) formats ++ drop (length formats) one_place))
unfolding enum_video_formats params tinypipewire.Video.Request.read_formats
    tinypipewire.Video.Request.on_format_event tinypipewire.Wait.delivered_woken
    tinypipewire.Wait.handle_all tinypipewire.Registry.Bind.on_registry_event
    tinypipewire.Core.on_event tinypipewire.Wait.await tinypipewire.Wait.await_woken
enum_video_formats_fills_example =
    enum_video_formats_fills no_number 110 request 40 one_place camera (omega arith) refl
