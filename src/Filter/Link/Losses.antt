-- ===== src/Filter/Link/Losses.antt =====
-- The loss of a source is reported once (src/pwf_filter.c, src/pwf_filter_port_link.c).
use tinypipewire.Common.{
  ℕ, ◌+◌, ◌≤◌, ◌≡◌, Bool, true, false, none, some, List, [], ◌∷◌, ◌++◌, if◌then◌else◌, arith, All,
}
use tinypipewire.Common.Int.{ℤ}
use tinypipewire.Wait.{Waits, handle_all, delivered, await-delivered, All-delivered}
use tinypipewire.Filter.Link.{
  FilterPort, LinkState, error, unlinked, paused, active, other, Effect, report_loss,
  update_buffers, warn_format, warn_dmabuf, is_input, link_on_info, on_param_changed, link_release,
  LinkEvent, info, format, on_link_event, on_port_event, Linking, negotiate, port_link, port_unlink,
  waiting, is_done,
}

-- How often the error callback is called.
abbrev pub losses : List Effect → ℕ
losses [] = 0
losses (report_loss ∷ effects) = 1 + losses effects
losses (update_buffers extra ∷ effects) = losses effects
losses (warn_format ∷ effects) = losses effects
losses (warn_dmabuf ∷ effects) = losses effects

losses-append : (xs ys : List Effect) → losses (xs ++ ys) ≡ losses xs + losses ys
losses-append [] ys = omega arith
losses-append (report_loss ∷ xs) ys = omega (arith, losses-append xs ys)
losses-append (update_buffers extra ∷ xs) ys = losses-append xs ys
losses-append (warn_format ∷ xs) ys = losses-append xs ys
losses-append (warn_dmabuf ∷ xs) ys = losses-append xs ys

-- How many reports a port has left until a new format is negotiated.
abbrev pub left : FilterPort → ℕ
left port = if port.link.loss_reported then 0 else 1

-- Whether the event negotiates a new format.
abbrev pub renews : LinkEvent → Bool
renews (info changed state) = false
renews (format none) = false
renews (format (some got)) = true

abbrev pub NoneRenews : List LinkEvent → Type 0
NoneRenews = All (λ e. renews e ≡ false)

info-losses :
    (same : ℤ → ℤ → Bool) (running cb : Bool) (port : FilterPort) (changed : Bool)
    (state : LinkState)
    → let next = on_link_event same running cb port (info changed state) in
      losses next.1 + left next.0 ≤ left port
unfolding on_link_event link_on_info
info-losses same running cb port changed error = ground arith
info-losses same running cb port changed unlinked = ground arith
info-losses same running cb port changed paused = ground arith
info-losses same running cb port changed active = ground arith
info-losses same running cb port changed other = ground arith

event-losses :
    (same : ℤ → ℤ → Bool) (running cb : Bool) (port : FilterPort) (e : LinkEvent)
    → renews e ≡ false
    → let next = on_link_event same running cb port e in losses next.1 + left next.0 ≤ left port
event-losses same running cb port (info changed state) r =
    info-losses same running cb port changed state
event-losses same running cb port (format none) r =
    unfold on_link_event on_param_changed in ground arith
event-losses same running cb port (format (some got)) r = absurd (ground arith)

handle_all-losses :
    (same : ℤ → ℤ → Bool) (running cb : Bool) (s : FilterPort × List Effect)
    (events : List LinkEvent)
    → NoneRenews events
    → let next = handle_all (on_port_event same running cb) s events in
      losses next.1 + left next.0 ≤ losses s.1 + left s.0
unfolding handle_all on_port_event
handle_all-losses same running cb s [] r = omega arith
handle_all-losses same running cb (port, effects) (e ∷ events) r =
    let next = on_link_event same running cb port e in
    omega (
      arith,
      handle_all-losses same running cb (next.0, effects ++ next.1) events r.1,
      event-losses same running cb port e r.0,
      losses-append effects next.1,
    )

-- A link that fails or is dropped leaves no more reports.
link_release-left :
    (port : FilterPort) → left (record port { link = (link_release port.link).0 }) ≤ left port
unfolding link_release
link_release-left port = ground arith

-- No event of a wait negotiates a new format.
abbrev pub WaitRenewsNone : Waits LinkEvent → Type 0
WaitRenewsNone w = All (λ batch. NoneRenews batch) w.woken × NoneRenews w.late

negotiate-losses :
    (same : ℤ → ℤ → Bool) (cb : Bool) (port : FilterPort) (waits : Waits LinkEvent)
    → WaitRenewsNone waits
    → let next = negotiate same cb port waits in losses next.2 + left next.1 ≤ left port
unfolding negotiate link_release
negotiate-losses same cb port waits r =
    let handle = on_port_event same true cb in
    let start : FilterPort × List Effect = (waiting port, []) in
    let done : FilterPort × List Effect → Bool = λ s. is_done s.0 in
    let events = delivered handle done start waits in
    ground (
      arith,
      await-delivered handle done start waits,
      handle_all-losses same true cb start events
          (All-delivered handle (λ e. renews e ≡ false) done start waits r.0 r.1),
    )

-- What happens to a port of a filter: an event, a start or stop of the filter, a call to link it with what
-- that meets, or to unlink it.
pub data PortOp : Type 0 where
  arrives : LinkEvent → PortOp
  runs : Bool → PortOp
  links : (named refused : Bool) → Linking → PortOp
  unlinks : (refused : Bool) → PortOp

-- The port, whether the filter runs, and the effects so far.
pub record Watched : Type 0 where
  pub port : FilterPort
  pub running : Bool
  pub effects : List Effect

pub watch : (ℤ → ℤ → Bool) → Bool → Watched → PortOp → Watched
watch same cb w (arrives e) =
    let next = on_link_event same w.running cb w.port e in
    record w { port = next.0; effects = w.effects ++ next.1 }
watch same cb w (runs running) = record w { running = running }
watch same cb w (links named refused env) =
    let next = port_link same cb w.running named refused env w.port in
    record w { port = next.1; effects = w.effects ++ next.2 }
watch same cb w (unlinks refused) = record w { port = (port_unlink refused w.port).1 }

abbrev pub watch_all : (ℤ → ℤ → Bool) → Bool → Watched → List PortOp → Watched
watch_all same cb = handle_all (watch same cb)

-- No new format is negotiated in the operation.
abbrev pub OpRenewsNone : PortOp → Type 0
OpRenewsNone (arrives e) = renews e ≡ false
OpRenewsNone (runs running) = Unit {0}
OpRenewsNone (links named refused env) = WaitRenewsNone env.waits
OpRenewsNone (unlinks refused) = Unit {0}

port_link-losses :
    (same : ℤ → ℤ → Bool) (cb running named refused : Bool) (env : Linking) (port : FilterPort)
    → WaitRenewsNone env.waits
    → let next = port_link same cb running named refused env port in
      losses next.2 + left next.1 ≤ left port
unfolding port_link
port_link-losses same cb running named refused env port r = ground (
  arith,
  negotiate-losses same cb
      (record port { link = record port.link { own_global_id = env.own_port } }) env.waits r,
)

watch-losses :
    (same : ℤ → ℤ → Bool) (cb : Bool) (w : Watched) (op : PortOp)
    → OpRenewsNone op
    → let next = watch same cb w op in
      losses next.effects + left next.port ≤ losses w.effects + left w.port
unfolding watch
watch-losses same cb w (arrives e) r =
    let next = on_link_event same w.running cb w.port e in
    omega (arith, event-losses same w.running cb w.port e r, losses-append w.effects next.1)
watch-losses same cb w (runs running) r = omega arith
watch-losses same cb w (links named refused env) r =
    let next = port_link same cb w.running named refused env w.port in
    omega (
      arith,
      port_link-losses same cb w.running named refused env w.port r,
      losses-append w.effects next.2,
    )
watch-losses same cb w (unlinks refused) r =
    unfold port_unlink in ground (arith, link_release-left w.port)

watch_all-losses :
    (same : ℤ → ℤ → Bool) (cb : Bool) (w : Watched) (ops : List PortOp)
    → All OpRenewsNone ops
    → let next = watch_all same cb w ops in
      losses next.effects + left next.port ≤ losses w.effects + left w.port
unfolding handle_all
watch_all-losses same cb w [] r = omega arith
watch_all-losses same cb w (op ∷ ops) r =
    omega
      (arith, watch_all-losses same cb (watch same cb w op) ops r.1, watch-losses same cb w op r.0)

-- However a port's events, the starts and stops of its filter, and calls to link and unlink it follow one
-- another, with whatever arrives while a link negotiates: as long as no new format is negotiated, the
-- error callback is told of a lost source at most once, and not at all if the loss is already reported.
pub losses_once :
    (same : ℤ → ℤ → Bool) (cb running : Bool) (port : FilterPort) (ops : List PortOp)
    → All OpRenewsNone ops
    → losses
        (watch_all same cb (record { port = port; running = running; effects = [] }) ops).effects
      ≤ left port
losses_once same cb running port ops r = omega (
  arith,
  watch_all-losses same cb (record { port = port; running = running; effects = [] }) ops r,
)

-- A running filter with an error callback tells it exactly once of a source that an input port loses, with
-- a link that was up and that no call waits for, and a loss that is not yet reported: whether the port's
-- format is cleared, or the link fails or is unlinked.
pub lost-reported :
    (same : ℤ → ℤ → Bool) (port : FilterPort)
    → is_input port.io.direction ≡ true
    → port.link.loss_reported ≡ false
    → port.link.link_wait ≡ none
    → port.link.link_state_seen_active ≡ true
    → (losses (on_link_event same true true port (format none)).1 ≡ 1)
      × (losses (on_link_event same true true port (info true error)).1 ≡ 1)
      × (losses (on_link_event same true true port (info true unlinked)).1 ≡ 1)
unfolding on_link_event on_param_changed link_on_info
lost-reported same port input fresh idle up = ground arith
