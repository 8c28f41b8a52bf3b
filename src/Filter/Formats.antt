-- ===== src/Filter/Formats.antt =====
-- src/pwf_filter_port_link.c: the formats that a node which a filter can be linked to offers.
use tinypipewire.Common.{ℕ, true, Option, none, some, List, [], String, if◌then◌else◌}
use tinypipewire.Common.Int.{is_negative}
use tinypipewire.Types.{invalid_arg, in_callback}
use tinypipewire.Core.{error_from_sync}
use tinypipewire.Registry.Bind.{Binding, Bound, registry_bind}
use tinypipewire.Video.Enumerate.{FormatInfo}
use tinypipewire.Video.Request.{FormatRequest}
use tinypipewire.Stream.State.{Caller}
use tinypipewire.Stream.Targets.{TargetFormats, no_formats, formats_of_node}
use tinypipewire.Filter.Target.{resolve_target_node}
use tinypipewire.Filter.Ports.{Filter}
use tinypipewire.Filter.Lifecycle.{filter_refuse_in_callback}

-- `pwf_filter_get_target_video_formats` of a filter that is not null, with `found` not null
unfoldable pub filter_get_target_video_formats :
    (String → ℕ)
    → ℕ
    → Caller
    → Filter
    → Option String
    → Binding
    → FormatRequest
    → Option (List FormatInfo)
    → Bound
    → TargetFormats
filter_get_target_video_formats strtoull etimedout caller filter target env request out b =
    let (result, b', calls) = registry_bind strtoull etimedout env b in
    elim target [
      | none ↦ no_formats invalid_arg out b []
      | some name ↦
          let node = (resolve_target_node strtoull b'.registry name).0 in
          if filter_refuse_in_callback caller filter true
          then no_formats in_callback out b []
          else if is_negative result
          then no_formats (error_from_sync etimedout result) out b' calls
          else formats_of_node strtoull etimedout request node out b' calls
    ]
