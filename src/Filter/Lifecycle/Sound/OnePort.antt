-- ===== src/Filter/Lifecycle/Sound/OnePort.antt =====
-- What one port of a filter keeps (src/pwf_filter_port.c, src/pwf_filter_port_link.c).
use tinypipewire.Common.{
  ℕ, ◌+◌, ◌≤◌, ◌≡◌, refl, ap, Bool, true, none, some, List, [], ◌∷◌, ◌++◌, arith, ◌∙◌,
}
use tinypipewire.Common.Int.{ℤ}
use tinypipewire.Wait.{Waits, handle_all, delivered, await-delivered}
use tinypipewire.Filter.Event.{grown}
use tinypipewire.Filter.Link.{
  FilterPort, LinkEvent, info, format, on_link_event, link_on_info, on_param_changed, Effect,
  Linking, port_link, port_unlink, negotiate, link_release, waiting, is_done, on_port_event,
  LinkState,
}
use tinypipewire.Filter.Ports.{FilterState, is_running, port_set_hold}
use tinypipewire.Filter.Lifecycle.Sound.{sound_port}

-- An event changes neither what a cycle touches nor whether there is a proxy.
event-io :
    (same : ℤ → ℤ → Bool) (r cb : Bool) (port : FilterPort) (e : LinkEvent)
    → let next = (on_link_event same r cb port e).0 in
      (next.io ≡ port.io) × (next.link.link_proxy ≡ port.link.link_proxy)
unfolding on_link_event link_on_info on_param_changed
event-io same r cb port (info changed LinkState.error) = ground arith
event-io same r cb port (info changed LinkState.unlinked) = ground arith
event-io same r cb port (info changed LinkState.paused) = ground arith
event-io same r cb port (info changed LinkState.active) = ground arith
event-io same r cb port (info changed LinkState.other) = ground arith
event-io same r cb port (format none) = ground arith
event-io same r cb port (format (some got)) = ground arith

pub event_sound :
    (same : ℤ → ℤ → Bool) (state : FilterState) (r cb : Bool) (port : FilterPort) (e : LinkEvent)
    → sound_port state port ≡ true
    → sound_port state (on_link_event same r cb port e).0 ≡ true
event_sound same state r cb port e h = ground (arith, event-io same r cb port e)

handle_all-io :
    (same : ℤ → ℤ → Bool) (r cb : Bool) (s : FilterPort × List Effect) (events : List LinkEvent)
    → (handle_all (on_port_event same r cb) s events).0.io ≡ s.0.io
unfolding handle_all on_port_event
handle_all-io same r cb s [] = refl
handle_all-io same r cb (port, effects) (e ∷ events) =
    let next = on_link_event same r cb port e in
    handle_all-io same r cb (next.0, effects ++ next.1) events ∙ (event-io same r cb port e).0

negotiate-io :
    (same : ℤ → ℤ → Bool) (cb : Bool) (port : FilterPort) (waits : Waits LinkEvent)
    → (negotiate same cb port waits).1.io ≡ port.io
unfolding negotiate
negotiate-io same cb port waits =
    let start : FilterPort × List Effect = (waiting port, []) in
    let done : FilterPort × List Effect → Bool = λ s. is_done s.0 in
    ap (λ (s : FilterPort × List Effect). s.0.io)
      (await-delivered (on_port_event same true cb) done start waits)
    ∙ handle_all-io same true cb start (delivered (on_port_event same true cb) done start waits)

pub port_link_sound :
    (same : ℤ → ℤ → Bool) (cb : Bool) (state : FilterState) (named refused : Bool) (env : Linking)
    (port : FilterPort)
    → sound_port state port ≡ true
    → sound_port state (port_link same cb (is_running state) named refused env port).1 ≡ true
unfolding port_link
port_link_sound same cb state named refused env port h = ground (
  arith,
  negotiate-io same cb (record port { link = record port.link { own_global_id = env.own_port } })
      env.waits,
)

pub port_unlink_sound :
    (state : FilterState) (refused : Bool) (port : FilterPort)
    → sound_port state port ≡ true
    → sound_port state (port_unlink refused port).1 ≡ true
unfolding port_unlink link_release
port_unlink_sound state refused port h = ground arith

pub port_set_hold_sound :
    (state : FilterState) (enable : Bool) (port : FilterPort)
    → sound_port state port ≡ true
    → sound_port state (port_set_hold state enable port).1 ≡ true
unfolding port_set_hold
port_set_hold_sound state enable port h = ground arith

pub grown-room :
    (realloc : ℕ → Bool) (n capacity : ℕ) {c : ℕ}
    → n ≤ capacity
    → grown realloc n capacity ≡ some c
    → n + 1 ≤ c
unfolding grown
grown-room realloc n capacity h e = ground arith
