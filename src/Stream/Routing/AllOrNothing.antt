-- ===== src/Stream/Routing/AllOrNothing.antt =====
-- `pwf_stream_link` wires every channel of a stream or none (src/pwf_stream_routing.c).
use tinypipewire.Common.{
  ℕ, zero, suc, ◌≤◌, ◌≡◌, refl, sym, subst, ◌∙◌, ap, Bool, true, false, ◌||◌, ◌==◌, Option, none,
  some, List, [], ◌∷◌, ◌++◌, String, arith, ◌⊎◌, inl, inr, All, Option-cases, Bool-cases, ◌+◌,
  append-nil,
}
use mathlib.Core.Option.{get_or}
use tinypipewire.Wait.{Waits, handle_all, delivered, await-delivered, All-delivered}
use tinypipewire.Stream.State.{Stream, LinkSet, Caller}
use tinypipewire.Stream.Routing.{
  LinkEvent, info, node_gone, Negotiating, on_link_event, Linking, link_one, Wired, link_loop,
  is_ok, Routing, Routed, wire, pair_ports, link,
}
use tinypipewire.Stream.Links.{release_links, on_node_removed}
use tinypipewire.Stream.Routing.Channels.{
  channels_from, channels_from-suc, marks, put_proxy-marks, wired_to, release_links-wired,
  release_links-next,
}

-- An event that does not tell that the device goes.
abbrev pub Stays : ℕ → LinkEvent → Type 0
Stays target (info changed state) = Unit {0}
Stays target (node_gone id) = (target == id) ≡ false

-- The device does not go while a link negotiates.
abbrev pub AllStay : ℕ → Waits LinkEvent → Type 0
AllStay target waits =
    All (λ batch. All (Stays target) batch) waits.woken × All (Stays target) waits.late

on_node_removed-Stays :
    (stream : Stream) (set : LinkSet) (id : ℕ)
    → stream.links ≡ some set
    → (set.target_node_id == id) ≡ false
    → on_node_removed stream id ≡ (stream, [], none)
unfolding on_node_removed
on_node_removed-Stays stream set id e other = ground (arith, e, other)

-- While the device stays, the events leave the stream and its proxies alone.
handle_all-Stays :
    (target : ℕ) (set : LinkSet) (n : Negotiating) (events : List LinkEvent)
    → n.stream.links ≡ some set
    → set.target_node_id ≡ target
    → All (Stays target) events
    → let n' = handle_all on_link_event n events in
      (n'.stream ≡ n.stream) × (n'.destroyed ≡ n.destroyed)
unfolding handle_all on_link_event on_node_removed
handle_all-Stays target set n [] e t stays = (refl, refl)
handle_all-Stays target set n (info changed state ∷ events) e t stays =
    ground (arith, handle_all-Stays target set (on_link_event n (info changed state)) events, stays)
handle_all-Stays target set n (node_gone id ∷ events) e t stays =
    let after = on_link_event n (node_gone id) in
    let same = on_node_removed-Stays n.stream set id e (ap (λ x. x == id) t ∙ stays.0) in
    let stream_same : after.stream ≡ n.stream = ap (λ r. r.0) same in
    let kept : after.destroyed ≡ n.destroyed =
      ap (λ r. n.destroyed ++ r.1) same ∙ append-nil n.destroyed in
    let rest =
      handle_all-Stays target set after events (ap (λ s. s.links) stream_same ∙ e) t stays.1 in
    (rest.0 ∙ stream_same, rest.1 ∙ kept)

-- What linking channel i leaves while the device stays.
record Channel (target i left : ℕ) (stream after : Stream) (proxy : Bool) (destroyed : List ℕ)
    : Type 0 where
  kept : destroyed ≡ []
  wires :
      ((proxy ≡ true) × (after ≡ wired_to target (suc i) left i stream))
      ⊎ ((proxy ≡ false) × (after ≡ wired_to target i (suc left) i stream))

link_one-Channel :
    (target i left : ℕ) (env : Linking) (stream : Stream)
    → AllStay target env.waits
    → let one = link_one i env (wired_to target i (suc left) i stream) in
      Channel target i left stream one.stream one.proxy one.destroyed
      × (is_ok one.code ≡ true → one.proxy ≡ true)
unfolding link_one
link_one-Channel target i left env stream stays =
    let start : Negotiating = record {
      seen_active = false;
      lost = false;
      stream = wired_to target (suc i) left i stream;
      destroyed = [];
      told = [];
    } in
    let over = λ (n : Negotiating). n.seen_active || n.lost in
    let waited =
      handle_all-Stays target _ start (delivered on_link_event over start env.waits) refl refl
        (All-delivered on_link_event (Stays target) over start env.waits stays.0 stays.1) in
    let heard = await-delivered on_link_event over start env.waits in
    ground (arith, waited, heard, put_proxy-marks i left)

-- What wiring a stream's n channels comes to: all of them, or none, with every proxy that was made
-- destroyed.
abbrev Wires : ℕ → ℕ → Stream → Wired → Type 0
Wires target n stream w =
    ((is_ok w.code ≡ true)
      × (w.made ≡ channels_from 0 n)
      × (w.destroyed ≡ [])
      × (w.stream ≡ wired_to target n 0 n stream))
    ⊎ ((is_ok w.code ≡ false)
        × (w.destroyed ≡ w.made)
        × (w.stream ≡ record stream { links = none }))

link_loop-Wires :
    (target : ℕ) (env : ℕ → Linking) (n left i : ℕ) (stream : Stream)
    → ((k : ℕ) → AllStay target (env k).waits)
    → i + left ≡ n
    → (w : Wired) × (link_loop env left i (wired_to target i left i stream) (channels_from 0 i)
        ≡ some w)
      × Wires target n stream w
unfolding link_loop release_links
link_loop-Wires target env n zero i stream stays total =
    let all : i ≡ n = omega arith in
    (
      _,
      refl,
      inl (refl, ap (λ m. channels_from 0 m) all, refl, ap (λ m. wired_to target m 0 m stream) all),
    )
link_loop-Wires target env n (suc left) i stream stays total =
    let start = wired_to target i (suc left) i stream in
    let one = link_one i (env i) start in
    let (channel, proxied) = link_one-Channel target i left (env i) stream (stays i) in
    let next = link_loop-Wires target env n left (suc i) stream stays (omega arith) in
    let made = channels_from 0 i ++ i ∷ [] in
    elim channel.wires [
      | inl (p, after) ↦ elim (Bool-cases (is_ok one.code)) [
        | inl good ↦ rw (after, p, good, channels_from-suc i) next
        | inr bad ↦
            let released = release_links (wired_to target (suc i) left (suc i) stream) in
            let failed : Wired = record {
              code = one.code;
              stream = released.0;
              made = made;
              destroyed = one.destroyed ++ released.1;
            } in
            let all : failed.destroyed ≡ failed.made =
              ap (λ d. d ++ released.1) channel.kept
              ∙ release_links-wired target i left stream
              ∙ sym (channels_from-suc i) in
            (failed, rw (after, p, bad) refl, inr (bad, all, refl))
      ]
      | inr (p, after) ↦
          let bad : is_ok one.code ≡ false = ground (arith, proxied, p) in
          let released = release_links (wired_to target i (suc left) (suc i) stream) in
          let failed : Wired = record {
            code = one.code;
            stream = released.0;
            made = channels_from 0 i;
            destroyed = one.destroyed ++ released.1;
          } in
          let all : failed.destroyed ≡ failed.made =
            ap (λ d. d ++ released.1) channel.kept ∙ release_links-next target i left stream in
          (failed, rw (after, p, bad) refl, inr (bad, all, refl))
    ]

-- What `pwf_stream_link` promises of its outcome. Success: each of the stream's own channels has a link
-- with a proxy, in order, and none was destroyed; there are at most 64 and no more than the target has.
-- Failure: every proxy that was made is destroyed, and the stream has the links from before.
abbrev pub Promised : Routing → Stream → Routed → Type 0
Promised env stream r =
    ((is_ok r.code ≡ true)
      × (r.made ≡ channels_from 0 env.n_own)
      × (r.destroyed ≡ [])
      × (r.stream ≡ wired_to env.target_node env.n_own 0 env.n_own stream)
      × (env.n_own ≤ env.n_peer)
      × (env.n_own ≤ 64))
    ⊎ ((is_ok r.code ≡ false) × (r.destroyed ≡ r.made) × (r.stream.links ≡ stream.links))

-- A refused call destroys nothing; any other goes on to wire the stream's own channels.
link-refuses :
    (caller : Caller) (env : Routing) (target : Option String) (stream : Stream) (r : Routed)
    → link caller env target stream ≡ some r
    → ((is_ok r.code ≡ false) × (r.destroyed ≡ r.made) × (r.stream.links ≡ stream.links))
      ⊎ ((wire env env.n_own stream ≡ some r)
          × (stream.links ≡ none)
          × (env.n_own ≤ env.n_peer)
          × (env.n_own ≤ 64))
unfolding link pair_ports
link-refuses caller env target stream r h = ground (arith, h)

link-none :
    (caller : Caller) (env : Routing) (target : Option String) (stream : Stream)
    → link caller env target stream ≡ none
    → wire env env.n_own stream ≡ none
unfolding link pair_ports
link-none caller env target stream h = ground (arith, h)

wire-some :
    (env : Routing) (n : ℕ) (stream : Stream)
    → ((k : ℕ) → AllStay env.target_node (env.links k).waits)
    → (w : Wired) × (wire env n stream
        ≡ some
            (record { code = w.code; stream = w.stream; made = w.made; destroyed = w.destroyed }))
      × Wires env.target_node n stream w
unfolding wire marks channels_from
wire-some env n stream stay =
    let total : 0 + n ≡ n = omega arith in
    let (w, looped, wires) = link_loop-Wires env.target_node env.links n n 0 stream stay total in
    (w, rw (looped, wire) refl, wires)

-- If the device does not go while one of its links negotiates, linking a stream returns, and wires every
-- channel or none, with no proxy left behind (`Promised`), whatever else fails.
pub link-all_or_nothing :
    (caller : Caller) (env : Routing) (target : Option String) (stream : Stream)
    → ((k : ℕ) → AllStay env.target_node (env.links k).waits)
    → (r : Routed) × (link caller env target stream ≡ some r) × Promised env stream r
link-all_or_nothing caller env target stream stay =
    let (w, wired, wires) = wire-some env env.n_own stream stay in
    elim (Option-cases (link caller env target stream)) [
      | inl e ↦ absurd (ground (arith, link-none caller env target stream e, wired))
      | inr (r, e) ↦ (
        r,
        e,
        elim (link-refuses caller env target stream r e) [
          | inl refused ↦ inr refused
          | inr (same, unlinked, fits, within) ↦
              subst (Promised env stream) (ap (λ o. get_or o r) (sym wired ∙ same)) (elim wires [
                | inl (good, made, kept, after) ↦ inl (good, made, kept, after, fits, within)
                | inr (bad, freed, after) ↦ inr (bad, freed, ap (λ s. s.links) after ∙ sym unlinked)
              ])
        ],
      )
    ]
