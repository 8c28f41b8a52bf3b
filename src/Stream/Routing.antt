-- ===== src/Stream/Routing.antt =====
-- src/pwf_stream_routing.c: linking a stream to a device, all of its channels or none.
pub mod Channels
pub mod AllOrNothing
pub mod Device
use tinypipewire.Common.{
  ℕ, zero, suc, ◌+◌, ◌-◌, Bool, true, false, not, ◌&&◌, ◌||◌, Option, none, some, is_some, List, [],
  ◌∷◌, ◌++◌, String, replicate, ltb, ◌==◌, if◌then◌else◌,
}
use tinypipewire.Common.Int.{ℤ, pos, negsuc, not_positive}
use tinypipewire.Types.{
  Code, ok, invalid_arg, connect_failed, invalid_format, not_configured, in_callback, not_found,
  timeout, no_memory,
}
use tinypipewire.Wait.{Waits, await}
use tinypipewire.Stream.Links.{release_links, on_node_removed}
use tinypipewire.Stream.State.{Stream, LinkSet, Caller, refuse_in_callback}
use tinypipewire.Stream.Events.{is_running}
use tinypipewire.Stream.Settings.{is_audio, has_text}

-- `pwf_stream_pair_ports`: the pairs and the surplus.
unfoldable pub pair_ports : ℕ → ℕ → ℕ × ℕ
pair_ports n_stream n_target =
    if n_stream == 0 || ltb n_target n_stream then (0, 0) else (n_stream, n_target - n_stream)

-- `pwf_stream_expected_ports`
unfoldable pub expected_ports : Stream → ℕ
expected_ports stream =
    if not (is_audio stream.type)
    then 1
    else elim stream.audio_format.channels [ pos n ↦ if ltb 0 n then n else 1 | negsuc n ↦ 1 ]

-- `enum pw_link_state`, as far as it is told apart
pub data LinkState : Type 0 where
  active paused error other : LinkState

-- What arrives while a link negotiates: an info event, with whether its state changed, or the removal of
-- a node.
pub data LinkEvent : Type 0 where
  info : (changed : Bool) → LinkState → LinkEvent
  node_gone : ℕ → LinkEvent

-- What the events of a wait act on: the flags of the `struct pwf_stream_link` that negotiates, the
-- stream, the links whose proxy is destroyed, and what the error callback is told.
pub record Negotiating : Type 0 where
  pub seen_active : Bool
  pub lost : Bool
  pub stream : Stream
  pub destroyed : List ℕ
  pub told : List Code

-- `pwf_stream_link_on_info`, and `pwf_stream_on_node_removed`.
unfoldable pub on_link_event : Negotiating → LinkEvent → Negotiating
unfolding on_node_removed
on_link_event n (info changed state) = if not changed then n else elim state [
  | active ↦ record n { seen_active = true }
  | paused ↦ record n { seen_active = true }
  | error ↦ record n { lost = true }
  | other ↦ n
]
on_link_event n (node_gone id) =
    let (stream', destroyed', told') = on_node_removed n.stream id in
    record n {
      stream = stream';
      destroyed = n.destroyed ++ destroyed';
      told = n.told ++ elim told' [ none ↦ [] | some code ↦ code ∷ [] ];
    }

-- What one link meets: whether its properties and its proxy can be made, and what arrives while it waits.
-- What arrives between two links, where the lock is free for a moment, is left out.
pub record Linking : Type 0 where
  pub properties : Bool
  pub proxy : Bool
  pub waits : Waits LinkEvent

-- `set->links[i].proxy = …`
unfoldable pub put_proxy : ℕ → List Bool → List Bool
put_proxy i [] = []
put_proxy zero (p ∷ proxies) = true ∷ proxies
put_proxy (suc i) (p ∷ proxies) = p ∷ put_proxy i proxies

-- A link set with a change.
abbrev pub in_links : (LinkSet → LinkSet) → Stream → Stream
in_links f stream = record stream {
  links = elim stream.links [ none ↦ none | some set ↦ some (f set) ];
}

-- What `pwf_stream_link_one` leaves: whether it made a proxy, its result, the stream, and what the events
-- of its wait destroyed. If they released the set, the stream has none, and what the code reads of the link
-- then is freed memory.
pub record Linked : Type 0 where
  pub proxy : Bool
  pub code : Code
  pub stream : Stream
  pub destroyed : List ℕ

unfoldable pub link_one : ℕ → Linking → Stream → Linked
unfolding put_proxy
link_one i env stream =
    let start : Negotiating = record {
      seen_active = false;
      lost = false;
      stream = in_links (λ set. record set { proxies = put_proxy i set.proxies }) stream;
      destroyed = [];
      told = [];
    } in
    let waited = await on_link_event (λ n. n.seen_active || n.lost) start env.waits in
    if not env.properties
    then record { proxy = false; code = no_memory; stream = stream; destroyed = [] }
    else if not env.proxy
    then record { proxy = false; code = connect_failed; stream = stream; destroyed = [] }
    else record {
      proxy = true;
      code = if waited.0.lost then invalid_format else if waited.1 then timeout else ok;
      stream = waited.0.stream;
      destroyed = waited.0.destroyed;
    }

-- What the loop over the pairs leaves: its result, the stream, the channels with a proxy, and those whose
-- proxy is destroyed.
pub record Wired : Type 0 where
  pub code : Code
  pub stream : Stream
  pub made : List ℕ
  pub destroyed : List ℕ

abbrev pub is_ok : Code → Bool
is_ok Code.ok = true
is_ok _ = false

-- The loop, from channel i on with `left` channels to go, as long as no set is released under it (`none`).
unfoldable pub link_loop : (ℕ → Linking) → ℕ → ℕ → Stream → List ℕ → Option Wired
unfolding link_one release_links
link_loop env zero i stream made =
    some (record { code = ok; stream = stream; made = made; destroyed = [] })
link_loop env (suc left) i stream made =
    let one = link_one i (env i) stream in
    let made' = if one.proxy then made ++ i ∷ [] else made in
    let counted = in_links (λ set. record set { n_links = suc i }) one.stream in
    let released = release_links counted in
    let rest = link_loop env left (suc i) counted made' in
    if not (is_some one.stream.links)
    then none
    else if is_ok one.code
    then rest
    else some (record {
      code = one.code;
      stream = released.0;
      made = made';
      destroyed = one.destroyed ++ released.1;
    })

-- What `pwf_stream_link` meets: the results of binding the registry and of waiting for the own ports, the
-- target's node or 0, the ports on both sides, the two allocations, and each link.
pub record Routing : Type 0 where
  pub bound : Code
  pub own_ports : Code
  pub target_node : ℕ
  pub n_own : ℕ
  pub n_peer : ℕ
  pub set_made : Bool
  pub links_made : Bool
  pub links : ℕ → Linking

-- What `pwf_stream_link` leaves.
pub record Routed : Type 0 where
  pub code : Code
  pub stream : Stream
  pub made : List ℕ
  pub destroyed : List ℕ

-- An early return.
abbrev pub refuse_link : Code → Stream → Option Routed
refuse_link code stream = some (record { code = code; stream = stream; made = []; destroyed = [] })

-- The set as it is allocated, with no link yet.
abbrev pub empty_set : ℕ → ℕ → LinkSet
empty_set pairs target = record {
  proxies = replicate pairs false;
  n_links = 0;
  target_node_id = target;
}

-- The part of `pwf_stream_link` that wires `pairs` channels.
unfoldable pub wire : Routing → ℕ → Stream → Option Routed
unfolding link_loop
wire env pairs stream =
    let start = record stream { links = some (empty_set pairs env.target_node) } in
    elim (link_loop env.links pairs 0 start []) [
      | none ↦ none
      | some w ↦
          some (record { code = w.code; stream = w.stream; made = w.made; destroyed = w.destroyed })
    ]

-- PWF_MAX_CHANNELS
abbrev pub max_channels : ℕ
max_channels = 64

-- `pwf_stream_link` on a stream that is not null; `none` where the code reads freed memory.
unfoldable pub link : Caller → Routing → Option String → Stream → Option Routed
unfolding refuse_in_callback has_text
link caller env target stream =
    let pairs = (pair_ports env.n_own env.n_peer).0 in
    if not (has_text target)
    then refuse_link invalid_arg stream
    else if refuse_in_callback caller stream true
    then refuse_link in_callback stream
    else if stream.autoconnect
    then refuse_link invalid_arg stream
    else if is_some stream.links
    then refuse_link invalid_arg stream
    else if not (is_running stream.state) || not stream.pw_stream
    then refuse_link not_configured stream
    else if not (is_ok env.bound)
    then refuse_link env.bound stream
    else if not (is_ok env.own_ports)
    then refuse_link env.own_ports stream
    else if env.target_node == 0
    then refuse_link not_found stream
    else if ltb max_channels env.n_own || ltb max_channels env.n_peer
    then refuse_link invalid_arg stream
    else if pairs == 0
    then refuse_link invalid_arg stream
    else if not env.set_made || not env.links_made
    then refuse_link no_memory stream
    else wire env pairs stream

-- `pwf_stream_unlink`: the code, the stream, and the links whose proxy is destroyed.
unfoldable pub unlink : Caller → Stream → Code × Stream × List ℕ
unfolding refuse_in_callback release_links
unlink caller stream =
    let released = release_links stream in
    if refuse_in_callback caller stream false
    then (in_callback, stream, [])
    else if is_some stream.links
    then (ok, released.0, released.1)
    else (not_configured, stream, [])
