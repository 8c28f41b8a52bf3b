-- ===== src/Filter/Link.antt =====
-- The link of a filter's port: its state and events in src/pwf_filter_port_link.c, the loss of a source in
-- src/pwf_filter.c, and the DMABUF calls of src/pwf_filter_dmabuf.c.
mod Tests
pub mod Losses
pub mod Negotiation
use tinypipewire.Common.{
  ℕ, Bool, true, false, not, ◌&&◌, ◌||◌, Option, none, some, is_some, List, [], ◌∷◌, ◌++◌,
  if◌then◌else◌, ◌==◌,
}
use tinypipewire.Common.Int.{ℤ}
use tinypipewire.Types.{
  DataType, Code, ok, invalid_arg, connect_failed, invalid_format, not_configured, in_callback,
  not_found, timeout, no_memory,
}
use tinypipewire.Format.{VideoFormat, VideoFormat-discrete}
use tinypipewire.Wait.{Waits, await}
use tinypipewire.Dmabuf.{Plane, dmabuf_extract_planes}
use tinypipewire.Filter.State.{Port, PortDirection}

-- `struct pwf_link_wait`
pub record LinkWait : Type 0 where
  pub done : Bool
  pub result : Code

-- The link fields of `struct pwf_filter_port`; a proxy is present or null.
pub record PortLink : Type 0 where
  pub own_global_id : ℕ
  pub link_proxy : Bool
  pub link_state_seen_active : Bool
  pub link_lost : Bool
  pub loss_reported : Bool
  pub link_wait : Option LinkWait

-- `struct pwf_filter_video_port_state`
pub record VideoPortState : Type 0 where
  pub width : ℤ
  pub height : ℤ
  pub format : VideoFormat

-- `struct pwf_filter_port`: what a cycle touches, the link, the video format and the name.
pub record FilterPort : Type 0 where
  pub io : Port
  pub link : PortLink
  pub video : VideoPortState
  pub pw_port_name : ℕ

-- `enum pw_link_state`, as far as it is told apart
pub data LinkState : Type 0 where
  error unlinked paused active other : LinkState

-- What a handler does besides changing the port: it calls the error callback, it asks for other buffers
-- with so many extra, or it warns of another format or of missing DMABUF.
pub data Effect : Type 0 where
  report_loss : Effect
  update_buffers : (extra : ℕ) → Effect
  warn_format warn_dmabuf : Effect

abbrev pub is_input : PortDirection → Bool
is_input PortDirection.input = true
is_input _ = false

-- `pwf_filter_claim_source_loss`; `running` is whether the filter's state is RUNNING.
unfoldable pub claim_source_loss : Bool → PortLink → Bool × PortLink
claim_source_loss running link =
    if not running || link.loss_reported
    then (false, link)
    else (true, record link { loss_reported = true })

-- The effects of a loss that is claimed or not; `cb` is whether there is an error callback.
abbrev pub reported : Bool → Bool → List Effect
reported cb claimed = if claimed && cb then report_loss ∷ [] else []

-- `pwf_filter_link_on_info`; `changed` is the state bit of the change mask.
unfoldable pub link_on_info : Bool → Bool → PortLink → Bool → LinkState → PortLink × List Effect
unfolding claim_source_loss
link_on_info running cb link changed state =
    let up : PortLink × List Effect = (
      record link {
        link_state_seen_active = true;
        link_wait = elim link.link_wait [
          | none ↦ none
          | some w ↦ some (record { done = true; result = ok })
        ];
      },
      [],
    ) in
    let gone =
      claim_source_loss running
        (record link { link_state_seen_active = false; link_lost = true }) in
    let down : PortLink × List Effect =
      if is_some link.link_wait
      then (record link { link_wait = some (record { done = true; result = invalid_format }) }, [])
      else if not link.link_state_seen_active
      then (link, [])
      else (gone.1, reported cb gone.0) in
    let handled : PortLink × List Effect = elim state [
      | paused ↦ up
      | active ↦ up
      | error ↦ down
      | unlinked ↦ down
      | other ↦ (link, [])
    ] in
    if changed then handled else (link, [])

-- A video format as SPA reads it from a param: `none` where it cannot be read or is no video.
pub record Negotiated : Type 0 where
  pub format : VideoFormat
  pub width : ℤ
  pub height : ℤ

-- `pwf_filter_check_negotiated_video`, which only warns; `same` is C's test of two `int`.
unfoldable pub check_negotiated_video :
    (ℤ → ℤ → Bool) → FilterPort → Option Negotiated → List Effect
check_negotiated_video same port got =
    let differs : List Effect = elim got [
      | none ↦ []
      | some g ↦ elim (VideoFormat-discrete g.format port.video.format) [
        | yes _ ↦
            if same g.width port.video.width && same g.height port.video.height
            then []
            else warn_format ∷ []
        | no _ ↦ warn_format ∷ []
      ]
    ] in
    elim port.io.media_type [ DataType.video ↦ differs | _ ↦ [] ]

-- `pwf_filter_dmabuf_update_params`
unfoldable pub dmabuf_update_params : Port → List Effect
dmabuf_update_params io =
    if io.use_dmabuf then update_buffers (if io.hold_enabled then 1 else 0) ∷ [] else []

-- `pwf_filter_on_param_changed` of SPA_PARAM_Format on a port: with a param, or with a null one.
unfoldable pub on_param_changed :
    (ℤ → ℤ → Bool)
    → Bool
    → Bool
    → FilterPort
    → Option (Option Negotiated)
    → FilterPort × List Effect
unfolding claim_source_loss
on_param_changed same running cb port (some got) = (
  record port { link = record port.link { loss_reported = false } },
  check_negotiated_video same port got ++ dmabuf_update_params port.io,
)
on_param_changed same running cb port none =
    let claimed = claim_source_loss running port.link in
    if not (is_input port.io.direction) then (port, []) else (
      record port { link = claimed.1 },
      (if claimed.0 && port.io.use_dmabuf then warn_dmabuf ∷ [] else []) ++ reported cb claimed.0,
    )

-- `pwf_filter_port_get_dmabuf_planes` of a buffer's port; `none` is a null buffer or port.
unfoldable pub port_get_dmabuf_planes :
    Option Port → Option (List Plane) → ℕ → ℕ × Option (List Plane)
port_get_dmabuf_planes none planes len = (0, planes)
port_get_dmabuf_planes (some port) planes len =
    if not port.use_dmabuf then (0, planes) else elim port.current_dmabuf_buf [
      | none ↦ (0, planes)
      | some buf ↦ dmabuf_extract_planes (some buf) planes len
    ]

-- `pwf_filter_port_link_release`, and whether it destroys a proxy
unfoldable pub link_release : PortLink → PortLink × Bool
link_release link = (
  record link {
    link_proxy = false;
    loss_reported = link.link_proxy || link.loss_reported;
    link_state_seen_active = false;
    link_lost = false;
  },
  link.link_proxy,
)

-- What can happen to a port on the loop thread while an application thread waits.
pub data LinkEvent : Type 0 where
  info : (changed : Bool) → LinkState → LinkEvent
  format : Option (Option Negotiated) → LinkEvent

-- The handlers of these events.
unfoldable pub on_link_event :
    (ℤ → ℤ → Bool) → Bool → Bool → FilterPort → LinkEvent → FilterPort × List Effect
on_link_event same running cb port (info changed state) =
    let handled = link_on_info running cb port.link changed state in
    (record port { link = handled.0 }, handled.1)
on_link_event same running cb port (format param) = on_param_changed same running cb port param

-- What `pwf_filter_port_link` meets: the results of binding the registry and of resolving the target and
-- the own port, 0 where there is none; whether the properties and the proxy can be made; what arrives
-- while it waits.
pub record Linking : Type 0 where
  pub bound : Code
  pub target_node : ℕ
  pub own_port : ℕ
  pub properties : Bool
  pub proxy : Bool
  pub waits : Waits LinkEvent

abbrev pub is_ok : Code → Bool
is_ok Code.ok = true
is_ok _ = false

-- The port as the wait finds it: a new proxy and a wait record.
abbrev pub waiting : FilterPort → FilterPort
waiting port = record port {
  link = record port.link {
    link_proxy = true;
    link_state_seen_active = false;
    link_lost = false;
    link_wait = some (record { done = false; result = connect_failed });
  };
}

-- `wait.done`
abbrev pub is_done : FilterPort → Bool
is_done port = elim port.link.link_wait [ none ↦ false | some w ↦ w.done ]

-- `result` once the wait is over; `late` is whether the deadline ended it.
abbrev pub wait_result : Bool → FilterPort → Code
wait_result late port =
    if late
    then timeout
    else elim port.link.link_wait [ none ↦ timeout | some w ↦ if w.done then w.result else timeout ]

-- A port with the effects so far, and one event more.
unfoldable pub on_port_event :
    (ℤ → ℤ → Bool) → Bool → Bool → FilterPort × List Effect → LinkEvent → FilterPort × List Effect
on_port_event same running cb (port, effects) e =
    let handled = on_link_event same running cb port e in (handled.0, effects ++ handled.1)

-- The part of `pwf_filter_port_link` from the proxy on: the code, the port and the effects meanwhile.
unfoldable pub negotiate :
    (ℤ → ℤ → Bool) → Bool → FilterPort → Waits LinkEvent → Code × FilterPort × List Effect
negotiate same cb port waits =
    let waited = await (on_port_event same true cb) (λ s. is_done s.0) (waiting port, []) waits in
    let code = wait_result waited.1 waited.0.0 in
    let ended : PortLink = record waited.0.0.link { link_wait = none } in
    (
      code,
      record waited.0.0 { link = if is_ok code then ended else (link_release ended).0 },
      waited.0.1,
    )

-- `pwf_filter_port_link` on a port and a target that are not null: `named` is whether the target has a
-- text, `refused` whether `pwf_filter_refuse_in_callback` refuses. The own port's id is kept.
unfoldable pub port_link :
    (ℤ → ℤ → Bool)
    → Bool
    → Bool
    → Bool
    → Bool
    → Linking
    → FilterPort
    → Code × FilterPort × List Effect
port_link same cb running named refused env port =
    let found = record port { link = record port.link { own_global_id = env.own_port } } in
    if not named || not (is_input port.io.direction)
    then (invalid_arg, port, [])
    else if refused
    then (in_callback, port, [])
    else if port.link.link_proxy
    then (invalid_arg, port, [])
    else if not running
    then (not_configured, port, [])
    else if not (is_ok env.bound)
    then (env.bound, port, [])
    else if env.target_node == 0
    then (not_found, port, [])
    else if env.own_port == 0
    then (connect_failed, port, [])
    else if not env.properties
    then (no_memory, found, [])
    else if not env.proxy
    then (connect_failed, found, [])
    else negotiate same cb found env.waits

-- `pwf_filter_port_unlink` on a port that is not null
unfoldable pub port_unlink : Bool → FilterPort → Code × FilterPort
port_unlink refused port =
    if not (is_input port.io.direction)
    then (invalid_arg, port)
    else if refused
    then (in_callback, port)
    else if not port.link.link_proxy
    then (not_configured, port)
    else (ok, record port { link = (link_release port.link).0 })
