-- ===== src/Stream/Targets.antt =====
-- src/pwf_stream_routing.c: the targets that a stream can be given, and the formats that one offers.
pub mod Listed
use tinypipewire.Common.{
  ℕ, suc, ◌+◌, ◌≡◌, Bool, true, false, not, ◌&&◌, ◌||◌, Option, none, some, is_some, List, [], ◌∷◌,
  ◌++◌, String, str_eq, ltb, ◌==◌, length, set, if◌then◌else◌,
}
use tinypipewire.Common.Int.{ℤ, is_negative}
use tinypipewire.Types.{Code, ok, invalid_arg, in_callback, not_found}
use tinypipewire.Core.{CoreCall, lock, unlock, error_from_sync}
use tinypipewire.Registry.{Registry, NodeEntry}
use tinypipewire.Registry.Bind.{Binding, Bound, registry_bind}
use tinypipewire.Video.Enumerate.{FormatInfo}
use tinypipewire.Video.Request.{FormatRequest, enum_video_formats}
use tinypipewire.Filter.Target.{find_node}
use tinypipewire.Stream.State.{Stream, Caller, refuse_in_callback}
use tinypipewire.Stream.Settings.{is_playback, is_video}

-- `pwf_stream_target_media_class`
unfoldable pub target_media_class : Stream → String
target_media_class stream =
    if is_playback stream.direction
    then "Audio/Sink"
    else if is_video stream.type
    then "Video/Source"
    else "Audio/Source"

-- `struct pwf_target_info`
pub record TargetInfo : Type 0 where
  pub name : String
  pub serial : String
  pub description : String

-- What a listing leaves: `written` is the caller's array, and `found` is not written where `found` is null.
pub record Listing : Type 0 where
  pub code : Code
  pub found : ℕ
  pub written : Option (List TargetInfo)
  pub bound : Bound
  pub calls : List CoreCall

-- `!e->media_class || strcmp(e->media_class, media_class) != 0`, negated
abbrev pub is_target : String → NodeEntry → Bool
is_target media_class e = elim e.media_class [ none ↦ false | some c ↦ str_eq c media_class ]

-- `clip n` is what `snprintf` with "%s" leaves in an array of n places, `digits` what it prints of a serial.
module _ (clip : ℕ → String → String) (digits : ℕ → String) where
  -- One entry as it is written
  unfoldable pub target_info : NodeEntry → TargetInfo
  target_info e = record {
    name = clip 256 e.name;
    serial = clip 32 (digits e.serial);
    description = clip 256 (elim e.description [ none ↦ "" | some d ↦ d ]);
  }

  -- The loop of `pwf_stream_get_target_list`, from the count n on: the count, and the array.
  unfoldable pub target_loop :
      String → ℕ → Option (List TargetInfo) → List NodeEntry → ℕ × Option (List TargetInfo)
  unfolding target_info
  target_loop media_class n out [] = (n, out)
  target_loop media_class n out (e ∷ nodes) =
      let written : Option (List TargetInfo) = elim out [
        | none ↦ none
        | some buf ↦ some (if ltb n (length buf) then set buf n (target_info e) else buf)
      ] in
      let skipped = target_loop media_class n out nodes in
      let stored = target_loop media_class (suc n) written nodes in
      if is_target media_class e then stored else skipped

-- What `pwf_stream_get_target_video_formats` leaves
pub record TargetFormats : Type 0 where
  pub code : Code
  pub found : ℕ
  pub written : Option (List FormatInfo)
  pub bound : Bound
  pub calls : List CoreCall

-- An early return
unfoldable pub no_formats : Code → Option (List FormatInfo) → Bound → List CoreCall → TargetFormats
no_formats code out b calls = record {
  code = code;
  found = 0;
  written = out;
  bound = b;
  calls = calls;
}

module _ (strtoull : String → ℕ) (etimedout : ℕ) where
  -- `pwf_stream_get_target_list` of a stream that is not null, with `found` not null
  unfoldable pub get_target_list :
      (ℕ → String → String)
      → (ℕ → String)
      → Caller
      → Stream
      → Binding
      → Option (List TargetInfo)
      → Bound
      → Listing
  get_target_list clip digits caller stream env out b =
      let (result, b', calls) = registry_bind strtoull etimedout env b in
      let (n, written) =
        target_loop clip digits (target_media_class stream) 0 out b'.registry.nodes in
      if refuse_in_callback caller stream true
      then record { code = in_callback; found = 0; written = out; bound = b; calls = [] }
      else if is_negative result
      then record {
        code = error_from_sync etimedout result;
        found = 0;
        written = out;
        bound = b';
        calls = calls;
      }
      else record {
        code = ok;
        found = n;
        written = written;
        bound = b';
        calls = calls ++ lock ∷ unlock ∷ [];
      }

  -- `pwf_stream_resolve_target` of a name that is not null, and the request that both APIs end in.
  unfoldable pub formats_of_node :
      FormatRequest → ℕ → Option (List FormatInfo) → Bound → List CoreCall → TargetFormats
  formats_of_node env node_id out b calls =
      let r = enum_video_formats strtoull etimedout env node_id out b in
      if node_id == 0
      then record { code = not_found; found = 0; written = out; bound = b; calls = calls }
      else record {
        code = r.code;
        found = r.found;
        written = r.written;
        bound = r.bound;
        calls = calls ++ r.calls;
      }

  -- `pwf_stream_get_target_video_formats` of a stream that is not null, with `found` not null
  unfoldable pub get_target_video_formats :
      Caller
      → Stream
      → Option String
      → Binding
      → FormatRequest
      → Option (List FormatInfo)
      → Bound
      → TargetFormats
  unfolding no_formats formats_of_node
  get_target_video_formats caller stream target env request out b =
      let (result, b', calls) = registry_bind strtoull etimedout env b in
      let name = if is_some target then target else stream.target in
      if not (is_video stream.type)
      then no_formats invalid_arg out b []
      else if refuse_in_callback caller stream true
      then no_formats in_callback out b []
      else elim name [
        | none ↦ no_formats invalid_arg out b []
        | some node_name ↦
            if is_negative result
            then no_formats (error_from_sync etimedout result) out b' calls
            else formats_of_node request (find_node strtoull b'.registry node_name) out b' calls
      ]
