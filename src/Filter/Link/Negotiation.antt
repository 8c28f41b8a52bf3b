-- ===== src/Filter/Link/Negotiation.antt =====
-- What `pwf_filter_port_link` leaves of a port (src/pwf_filter_port_link.c).
use tinypipewire.Common.{
  ◌≡◌, refl, sym, subst, Bool, true, false, not, ◌&&◌, ◌||◌, none, some, List, [], ◌∷◌, ◌++◌, arith,
}
use tinypipewire.Common.Int.{ℤ}
use tinypipewire.Types.{Code, ok}
use tinypipewire.Wait.{Waits, await, handle_all, delivered, await-delivered, await-done}
use tinypipewire.Filter.Link.{
  PortLink, FilterPort, is_input, LinkState, error, unlinked, paused, active, other, Effect,
  link_on_info, LinkEvent, info, format, on_link_event, on_port_event, Linking, negotiate,
  port_link, port_unlink, waiting, is_done, is_ok, link_release, on_param_changed,
}

-- Whether a result that a wait ends with is an answer: success of a link that was seen active, or a refusal.
abbrev answers : Code → Bool → Bool
answers Code.ok seen = seen
answers Code.invalid_format seen = true
answers _ seen = false

-- A port that a call waits for: it has a proxy, its link is not lost, and a wait that is done has an answer.
abbrev pending : PortLink → Bool
pending link = elim link.link_wait [
  | none ↦ false
  | some w ↦
      link.link_proxy
      && not link.link_lost
      && (not w.done || answers w.result link.link_state_seen_active)
]

info-pending :
    (running cb : Bool) (link : PortLink) (changed : Bool) (state : LinkState)
    → pending link ≡ true
    → pending (link_on_info running cb link changed state).0 ≡ true
unfolding link_on_info
info-pending running cb link changed error h = ground arith
info-pending running cb link changed unlinked h = ground arith
info-pending running cb link changed paused h = ground arith
info-pending running cb link changed active h = ground arith
info-pending running cb link changed other h = ground arith

event-pending :
    (same : ℤ → ℤ → Bool) (running cb : Bool) (port : FilterPort) (e : LinkEvent)
    → pending port.link ≡ true
    → pending (on_link_event same running cb port e).0.link ≡ true
unfolding on_link_event
event-pending same running cb port (info changed state) h =
    info-pending running cb port.link changed state h
event-pending same running cb port (format none) h = unfold on_param_changed in ground arith
event-pending same running cb port (format (some got)) h = unfold on_param_changed in ground arith

handle_all-pending :
    (same : ℤ → ℤ → Bool) (running cb : Bool) (s : FilterPort × List Effect)
    (events : List LinkEvent)
    → pending s.0.link ≡ true
    → pending (handle_all (on_port_event same running cb) s events).0.link ≡ true
unfolding handle_all on_port_event
handle_all-pending same running cb s [] h = h
handle_all-pending same running cb (port, effects) (e ∷ events) h =
    let next = on_link_event same running cb port e in
    handle_all-pending same running cb (next.0, effects ++ next.1) events
      (event-pending same running cb port e h)

-- The port with or without a link: with one it has a proxy for a link that was seen active, without one it has
-- none and no state of a link; in both cases no link is lost and no call waits for one.
abbrev pub Linked : Bool → PortLink → Type 0
Linked up link =
    (link.link_proxy ≡ up)
    × (link.link_state_seen_active ≡ up)
    × (link.link_lost ≡ false)
    × (link.link_wait ≡ none)

negotiate-Linked :
    (same : ℤ → ℤ → Bool) (cb : Bool) (port : FilterPort) (waits : Waits LinkEvent)
    → let next = negotiate same cb port waits in Linked (is_ok next.0) next.1.link
unfolding negotiate link_release
negotiate-Linked same cb port waits =
    let handle = on_port_event same true cb in
    let start : FilterPort × List Effect = (waiting port, []) in
    let done : FilterPort × List Effect → Bool = λ s. is_done s.0 in
    let over = await handle done start waits in
    let kept : pending over.0.0.link ≡ true =
      subst (λ (s : FilterPort × List Effect). pending s.0.link ≡ true)
        (sym (await-delivered handle done start waits))
        (handle_all-pending same true cb start (delivered handle done start waits) refl) in
    ground (arith, kept, await-done handle done start waits)

-- Linking a port that has no link, whatever stands in its way and whatever arrives while it negotiates,
-- up to the deadline and at it: success leaves the port with a proxy for a link that was seen active, and
-- every failure without a proxy and without the state of a link; no link counts as lost, and no record of
-- the wait is left behind (`Linked`).
pub port_link-Linked :
    (same : ℤ → ℤ → Bool) (cb running named refused : Bool) (env : Linking) (port : FilterPort)
    → Linked false port.link
    → let next = port_link same cb running named refused env port in
      Linked (is_ok next.0) next.1.link
unfolding port_link
port_link-Linked same cb running named refused env port idle = ground (
  arith,
  negotiate-Linked same cb
      (record port { link = record port.link { own_global_id = env.own_port } }) env.waits,
)

-- Unlinking a port that is linked leaves it as a port without a link, and it can be linked again.
pub port_unlink-Linked :
    (port : FilterPort)
    → is_input port.io.direction ≡ true
    → Linked true port.link
    → ((port_unlink false port).0 ≡ ok) × Linked false (port_unlink false port).1.link
unfolding port_unlink link_release
port_unlink-Linked port input linked = ground arith
