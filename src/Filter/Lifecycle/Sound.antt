-- ===== src/Filter/Lifecycle/Sound.antt =====
-- What holds of a filter in every state that it reaches (src/pwf_filter.c, src/pwf_filter_port.c,
-- src/pwf_filter_port_link.c).
pub mod OnePort
pub mod Added
pub mod Kept
use tinypipewire.Common.{
  ℕ, zero, suc, ◌+◌, ◌≤◌, ◌≡◌, refl, sym, subst, Bool, true, false, not, ◌&&◌, ◌||◌, Option, none,
  some, is_some, List, [], ◌∷◌, ◌++◌, map, length, get_elem?, set, All, length-append, length-set,
  if◌then◌else◌, arith, Bool-cases, inl, inr, ◌⊎◌, Option-cases, ◌∙◌,
}
use tinypipewire.Common.Int.{ℤ}
use tinypipewire.Types.{PortMemory, Code}
use tinypipewire.Wait.{Waits, handle_all, delivered, await-delivered}
use tinypipewire.Stream.State.{Caller}
use tinypipewire.Stream.Settings.{AudioConfig, VideoConfig}
use tinypipewire.Filter.State.{Port, PortDirection}
use tinypipewire.Filter.Event.{grown}
use tinypipewire.Filter.Link.{
  FilterPort, PortLink, is_input, LinkEvent, info, format, on_link_event, link_on_info,
  on_param_changed, Effect, Linking, port_link, port_unlink, negotiate, link_release, waiting,
  is_done, on_port_event,
}
use tinypipewire.Filter.Ports.{
  Filter, FilterState, is_running, is_created, Adding, add_port, add_port_to_list, add_audio_port,
  add_signal_port, add_event_port, add_video_port_ex, port_set_hold, new_port,
}
use tinypipewire.Filter.Lifecycle.{
  filter_set_error_callback, set_period_hint, filter_start, FilterEvent, drained, at_port, cycled,
  write_back, on_filter_event, filter_drain, stop_port, release_links, release_all_links,
  finish_stop, filter_stop,
}

-- A port keeps to its direction: only an input port imports DMABUF, holds and is linked.
abbrev pub keeps_direction : FilterPort → Bool
keeps_direction port =
    is_input port.io.direction
    || (not port.io.use_dmabuf && not port.io.hold_enabled && not port.link.link_proxy)

-- Nothing of the graph is in the port's hands.
abbrev pub is_free : FilterPort → Bool
is_free port = not port.link.link_proxy && not (is_some port.io.held) && not port.io.has_held

abbrev pub sound_port : FilterState → FilterPort → Bool
sound_port state port = keeps_direction port && (is_running state || is_free port)

-- What a process callback leaves of a port: its direction and what was chosen for it stay.
abbrev pub SameKind : Port → Port → Type 0
SameKind p q =
    (q.direction ≡ p.direction) × (q.use_dmabuf ≡ p.use_dmabuf) × (q.hold_enabled ≡ p.hold_enabled)

abbrev pub AllSameKind : List FilterPort → List Port → Type 0
AllSameKind [] ios = Unit {0}
AllSameKind (p ∷ ports) [] = Unit {0}
AllSameKind (p ∷ ports) (io ∷ ios) = SameKind p.io io × AllSameKind ports ios

-- A process callback among the events keeps what each port is.
abbrev pub KeepsKinds : FilterEvent → Type 0
KeepsKinds drained = Unit {0}
KeepsKinds (at_port i e) = Unit {0}
KeepsKinds (cycled leaves) = (ports : List FilterPort) → AllSameKind ports (leaves ports)

-- One step of a filter's life: a call of the API with what it meets, an event on the loop thread, or a
-- process callback, which comes only while the filter runs.
pub data Step : Filter → Filter → Type 0 where
  audio_port :
      (f : Filter) (env : Adding) (d : PortDirection) (c : Option AudioConfig)
      → Step f (add_audio_port env d c f).1
  signal_port : (f : Filter) (env : Adding) (d : PortDirection) → Step f (add_signal_port env d f).1
  event_port : (f : Filter) (env : Adding) (d : PortDirection) → Step f (add_event_port env d f).1
  video_port :
      (f : Filter) (env : Adding) (d : PortDirection) (c : Option VideoConfig)
      (m : Option PortMemory)
      → Step f (add_video_port_ex env d c m f).1
  error_callback : (f : Filter) (cb : Bool) → Step f (filter_set_error_callback cb f).filter
  period_hint : (f : Filter) (n : ℕ) → Step f (set_period_hint n f).filter
  hold :
      (f : Filter) (i : ℕ) (enable : Bool) {p : FilterPort}
      → get_elem? f.ports i ≡ some p
      → Step f (record f { ports = set f.ports i (port_set_hold f.state enable p).1 })
  starting :
      (f : Filter) (caller : Caller) (result : ℤ) → Step f (filter_start caller result f).filter
  stopping :
      (f : Filter) (same : ℤ → ℤ → Bool) (caller : Caller) (drain : Bool)
      (waits : Waits FilterEvent)
      → f.conn.loop ≡ true
      → All (λ batch. All KeepsKinds batch) waits.woken
      → All KeepsKinds waits.late
      → Step f (filter_stop same caller drain waits f).filter
  event :
      (f : Filter) (same : ℤ → ℤ → Bool) (e : FilterEvent)
      → KeepsKinds e
      → Step f (on_filter_event same (f, []) e).0
  linking :
      (f : Filter) (same : ℤ → ℤ → Bool) (named refused : Bool) (env : Linking) (i : ℕ)
      {p : FilterPort}
      → get_elem? f.ports i ≡ some p
      → Step f (record f {
        ports =
            set f.ports i (port_link same f.error_cb (is_running f.state) named refused env p).1;
      })
  unlinking :
      (f : Filter) (refused : Bool) (i : ℕ) {p : FilterPort}
      → get_elem? f.ports i ≡ some p
      → Step f (record f { ports = set f.ports i (port_unlink refused p).1 })
  cycle :
      (f : Filter) (ios : List Port)
      → is_running f.state ≡ true
      → AllSameKind f.ports ios
      → Step f (record f { ports = write_back f.ports ios })

pub data Reach (f : Filter) : Filter → Type 0 where
  here : Reach f f
  next : {g h : Filter} → Reach f g → Step g h → Reach f h

pub record IsSound (f : Filter) : Type 0 where
  pub ports : All (λ p. sound_port f.state p ≡ true) f.ports
  pub room : length f.ports ≤ f.ports_capacity
