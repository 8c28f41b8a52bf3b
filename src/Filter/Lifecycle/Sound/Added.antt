-- ===== src/Filter/Lifecycle/Sound/Added.antt =====
-- Adding a port keeps a filter sound (src/pwf_filter_port.c, src/pwf_filter.c).
use tinypipewire.Common.{
  ℕ, ◌≡◌, Bool, true, false, not, ◌&&◌, ◌||◌, Option, none, some, [], ◌∷◌, ◌++◌, length, All-snoc,
  length-append, arith, Bool-cases, inl, inr, Option-cases,
}
use tinypipewire.Types.{DataType, PortMemory}
use tinypipewire.Stream.Settings.{
  AudioConfig, VideoConfig, video_format, video_format_name, wants_dmabuf,
}
use tinypipewire.Filter.State.{PortDirection}
use tinypipewire.Filter.Event.{grown}
use tinypipewire.Filter.Link.{FilterPort, VideoPortState, is_input}
use tinypipewire.Filter.Ports.{
  Filter, is_created, Adding, add_port, add_port_to_list, add_audio_port, add_signal_port,
  add_event_port, add_video_port_ex, new_port, no_video,
}
use tinypipewire.Filter.Lifecycle.Sound.{sound_port, IsSound}
use tinypipewire.Filter.Lifecycle.Sound.OnePort.{grown-room}

add_port_to_list-IsSound :
    (realloc : ℕ → Bool) (f : Filter) (port : FilterPort)
    → sound_port f.state port ≡ true
    → IsSound f
    → IsSound (add_port_to_list realloc f port).1
unfolding add_port_to_list
add_port_to_list-IsSound realloc f port fits h =
    elim (Option-cases (grown realloc (length f.ports) f.ports_capacity)) [
      | inl n ↦ rw (n, add_port_to_list) h
      | inr (c, n) ↦
          rw (n, add_port_to_list)
            (record {
              ports = All-snoc (λ p. sound_port f.state p ≡ true) f.ports port h.ports fits;
              room = omega (
                arith,
                grown-room realloc (length f.ports) f.ports_capacity h.room n,
                length-append f.ports (port ∷ []),
              );
            })
    ]

-- A new port of a filter that is still being put together
add_port-IsSound :
    (env : Adding) (make : ℕ → FilterPort) (f : Filter)
    → sound_port f.state (make (length f.ports)) ≡ true
    → IsSound f
    → IsSound (add_port env make f).1
unfolding add_port
add_port-IsSound env make f fits h =
    let known = record f { pw_ports = f.pw_ports ++ length f.ports ∷ [] } in
    elim (Bool-cases (not env.properties || not env.added)) [
      | inl n ↦ rw n h
      | inr n ↦ rw n (
          add_port_to_list-IsSound env.realloc known (make (length f.ports)) fits
            (record { ports = h.ports; room = h.room }))
    ]

pub audio_port-IsSound :
    (f : Filter) (env : Adding) (d : PortDirection) (c : Option AudioConfig)
    → IsSound f
    → IsSound (add_audio_port env d c f).1
unfolding add_audio_port
audio_port-IsSound f env d none h = h
audio_port-IsSound f env d (some c) h = ground (
  arith,
  h,
  λ (s : is_created f.state ≡ true).
      add_port-IsSound env (λ name. new_port d DataType.audio false name no_video) f
        (ground (arith, s)) h,
)

pub signal_port-IsSound :
    (f : Filter) (env : Adding) (d : PortDirection)
    → IsSound f
    → IsSound (add_signal_port env d f).1
unfolding add_signal_port
signal_port-IsSound f env d h = ground (
  arith,
  h,
  λ (s : is_created f.state ≡ true).
      add_port-IsSound env (λ name. new_port d DataType.signal false name no_video) f
        (ground (arith, s)) h,
)

pub event_port-IsSound :
    (f : Filter) (env : Adding) (d : PortDirection) → IsSound f → IsSound (add_event_port env d f).1
unfolding add_event_port
event_port-IsSound f env d h = ground (
  arith,
  h,
  λ (s : is_created f.state ≡ true).
      add_port-IsSound env (λ name. new_port d DataType.event false name no_video) f
        (ground (arith, s)) h,
)

pub video_port-IsSound :
    (f : Filter) (env : Adding) (d : PortDirection) (c : Option VideoConfig) (m : Option PortMemory)
    → IsSound f
    → IsSound (add_video_port_ex env d c m f).1
unfolding add_video_port_ex
video_port-IsSound f env d none m h = h
video_port-IsSound f env d (some c) m h =
    let shown : VideoPortState = record {
      width = c.width;
      height = c.height;
      format = video_format (video_format_name c);
    } in
    ground (
      arith,
      h,
      λ (w : (wants_dmabuf m && not (is_input d)) ≡ false).
          add_port-IsSound env (λ name. new_port d DataType.video (wants_dmabuf m) name shown) f
            (ground (arith, w)) h,
    )
