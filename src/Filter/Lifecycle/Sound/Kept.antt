-- ===== src/Filter/Lifecycle/Sound/Kept.antt =====
-- Every step of a filter's life keeps it sound.
use tinypipewire.Common.{
  ℕ, suc, ◌≡◌, refl, sym, ap, subst, Bool, true, false, some, List, [], ◌∷◌, map, length, get_elem?,
  set, All, All-set, All-get_elem?, All-mono, length-set, if◌then◌else◌, arith, Bool-cases, inl,
  inr, Option-cases, ◌==◌,
}
use tinypipewire.Common.Int.{ℤ, is_negative}
use tinypipewire.Wait.{Waits, handle_all, delivered, await-delivered, All-delivered}
use tinypipewire.Stream.State.{Caller}
use tinypipewire.Filter.State.{Port}
use tinypipewire.Filter.Link.{FilterPort, on_link_event, Effect, link_release}
use tinypipewire.Filter.Ports.{Filter, FilterState, is_running, is_created}
use tinypipewire.Filter.Lifecycle.{
  filter_set_error_callback, set_period_hint, filter_start, FilterEvent, drained, at_port, cycled,
  write_back, on_filter_event, filter_drain, stop_port, release_links, release_all_links,
  finish_stop, filter_stop, filter_refuse_in_callback, FilterRequest, flush,
}
use tinypipewire.Filter.Lifecycle.Stopped.{filter_drain-conn}
use tinypipewire.Filter.Lifecycle.Sound.{
  sound_port, AllSameKind, KeepsKinds, Step, Reach, IsSound, audio_port, signal_port, event_port,
  video_port, error_callback, period_hint, hold, starting, stopping, event, linking, unlinking,
  cycle, here, next,
}
use tinypipewire.Filter.Lifecycle.Sound.OnePort.{
  event_sound, port_link_sound, port_unlink_sound, port_set_hold_sound,
}
use tinypipewire.Filter.Lifecycle.Sound.Added.{
  audio_port-IsSound, signal_port-IsSound, event_port-IsSound, video_port-IsSound,
}

-- A port changes at one place.
set-IsSound :
    (f : Filter) (i : ℕ) (p : FilterPort)
    → sound_port f.state p ≡ true
    → IsSound f
    → IsSound (record f { ports = set f.ports i p })
set-IsSound f i p s h = record {
  ports = All-set (λ q. sound_port f.state q ≡ true) f.ports i p h.ports s;
  room = omega (arith, h.room, length-set f.ports i p);
}

port_sound :
    (f : Filter) (i : ℕ) {p : FilterPort}
    → IsSound f
    → get_elem? f.ports i ≡ some p
    → sound_port f.state p ≡ true
port_sound f i h e = All-get_elem? (λ q. sound_port f.state q ≡ true) f.ports i h.ports e

cycle_sound :
    (state : FilterState) (ports : List FilterPort) (ios : List Port)
    → is_running state ≡ true
    → AllSameKind ports ios
    → All (λ p. sound_port state p ≡ true) ports
    → All (λ p. sound_port state p ≡ true) (write_back ports ios)
unfolding write_back
cycle_sound state [] ios r k h = tt
cycle_sound state (p ∷ ports) [] r k h = h
cycle_sound state (p ∷ ports) (io ∷ ios) r k h =
    (ground (arith, h.0, k.0), cycle_sound state ports ios r k.1 h.1)

length-write_back :
    (ports : List FilterPort) (ios : List Port) → length (write_back ports ios) ≡ length ports
unfolding write_back
length-write_back [] ios = refl
length-write_back (p ∷ ports) [] = refl
length-write_back (p ∷ ports) (io ∷ ios) = ap suc (length-write_back ports ios)

event-IsSound :
    (same : ℤ → ℤ → Bool) (f : Filter) (effects : List Effect) (e : FilterEvent)
    → KeepsKinds e
    → IsSound f
    → IsSound (on_filter_event same (f, effects) e).0
unfolding on_filter_event
event-IsSound same f effects drained k h = record { ports = h.ports; room = h.room }
event-IsSound same f effects (at_port i e) k h = elim (Option-cases (get_elem? f.ports i)) [
  | inl n ↦ rw (n, on_filter_event) h
  | inr (p, n) ↦
      rw (n, on_filter_event)
        (set-IsSound f i (on_link_event same (is_running f.state) f.error_cb p e).0
          (event_sound same f.state (is_running f.state) f.error_cb p e (port_sound f i h n)) h)
]
event-IsSound same f effects (cycled leaves) k h = elim (Bool-cases (is_running f.state)) [
  | inl r ↦
      rw (r, on_filter_event)
        (record {
          ports = cycle_sound f.state f.ports (leaves f.ports) r (k f.ports) h.ports;
          room = omega (arith, h.room, length-write_back f.ports (leaves f.ports));
        })
  | inr r ↦ rw (r, on_filter_event) h
]

handle_all-IsSound :
    (same : ℤ → ℤ → Bool) (s : Filter × List Effect) (events : List FilterEvent)
    → All KeepsKinds events
    → IsSound s.0
    → IsSound (handle_all (on_filter_event same) s events).0
unfolding handle_all
handle_all-IsSound same s [] k h = h
handle_all-IsSound same (f, effects) (e ∷ events) k h =
    handle_all-IsSound same (on_filter_event same (f, effects) e) events k.1
      (event-IsSound same f effects e k.0 h)

drain-IsSound :
    (same : ℤ → ℤ → Bool) (f : Filter) (waits : Waits FilterEvent)
    → All (λ batch. All KeepsKinds batch) waits.woken
    → All KeepsKinds waits.late
    → IsSound f
    → IsSound (filter_drain same f waits).0
unfolding filter_drain
drain-IsSound same f waits k late h =
    let asked : Filter × List Effect = (record f { drained = false }, []) in
    let done : Filter × List Effect → Bool = λ s. s.0.drained in
    subst (λ (s : Filter × List Effect). IsSound s.0)
      (sym (await-delivered (on_filter_event same) done asked waits))
      (handle_all-IsSound same asked (delivered (on_filter_event same) done asked waits)
        (All-delivered (on_filter_event same) KeepsKinds done asked waits k late)
        (record { ports = h.ports; room = h.room }))

released_sound :
    (state : FilterState) (ports : List FilterPort)
    → All (λ p. sound_port state p ≡ true) ports
    → All (λ p. sound_port FilterState.stopped p ≡ true) (release_links (map stop_port ports)).0
unfolding release_links stop_port link_release
released_sound state [] h = tt
released_sound state (p ∷ ports) h = (ground (arith, h.0), released_sound state ports h.1)

length-released :
    (ports : List FilterPort) → length (release_links (map stop_port ports)).0 ≡ length ports
unfolding release_links
length-released [] = refl
length-released (p ∷ ports) = ap suc (length-released ports)

finish_stop-IsSound :
    (f : Filter) (asked : List FilterRequest)
    → f.conn.loop ≡ true
    → IsSound f
    → IsSound (finish_stop f asked).filter
unfolding finish_stop release_all_links
finish_stop-IsSound f asked loop h = rw loop (record {
  ports = released_sound f.state f.ports h.ports;
  room = omega (arith, h.room, length-released f.ports);
})

stop-IsSound :
    (same : ℤ → ℤ → Bool) (caller : Caller) (drain : Bool) (waits : Waits FilterEvent) (f : Filter)
    → f.conn.loop ≡ true
    → All (λ batch. All KeepsKinds batch) waits.woken
    → All KeepsKinds waits.late
    → IsSound f
    → IsSound (filter_stop same caller drain waits f).filter
unfolding filter_stop
stop-IsSound same caller drain waits f loop k late h =
    let waited = if drain then (filter_drain same f waits).0 else f in
    let kept : waited.conn.loop ≡ true =
      ground (arith, ap (λ c. c.loop) (filter_drain-conn same f waits)) in
    let sound : IsSound waited =
      elim drain as (λ k. IsSound (if k then (filter_drain same f waits).0 else f)) [
        | true ↦ drain-IsSound same f waits k late h
        | false ↦ h
      ] in
    elim (Bool-cases (filter_refuse_in_callback caller f drain)) [
      | inl r ↦ rw r h
      | inr r ↦ elim (Bool-cases (is_running f.state)) [
        | inl s ↦
            rw (r, s) (finish_stop-IsSound waited (if drain then flush ∷ [] else []) kept sound)
        | inr s ↦ rw (r, s) h
      ]
    ]

running-IsSound : (f : Filter) → IsSound f → IsSound (record f { state = FilterState.running })
running-IsSound f h = record {
  ports =
      All-mono (λ p. sound_port f.state p ≡ true) (λ p. sound_port FilterState.running p ≡ true)
        f.ports (λ p s. ground (arith, s)) h.ports;
  room = h.room;
}

start-IsSound :
    (caller : Caller) (result : ℤ) (f : Filter)
    → IsSound f
    → IsSound (filter_start caller result f).filter
unfolding filter_start
start-IsSound caller result f h = elim (Bool-cases (filter_refuse_in_callback caller f false)) [
  | inl r ↦ rw r h
  | inr r ↦ elim (Bool-cases (length f.ports == 0)) [
    | inl n ↦ rw (r, n) h
    | inr n ↦ elim (Bool-cases (is_created f.state)) [
      | inr s ↦ rw (r, n, s) (running-IsSound f h)
      | inl s ↦ elim (Bool-cases (is_negative result)) [
        | inl e ↦ rw (r, n, s, e) h
        | inr e ↦ rw (r, n, s, e) (running-IsSound f h)
      ]
    ]
  ]
]

period_hint-IsSound : (f : Filter) (n : ℕ) → IsSound f → IsSound (set_period_hint n f).filter
unfolding set_period_hint
period_hint-IsSound f n h = elim (Bool-cases (is_created f.state)) [
  | inl s ↦ rw s (record { ports = h.ports; room = h.room })
  | inr s ↦ rw s h
]

Step-IsSound : {f g : Filter} → Step f g → IsSound f → IsSound g
Step-IsSound (audio_port f env d c) h = audio_port-IsSound f env d c h
Step-IsSound (signal_port f env d) h = signal_port-IsSound f env d h
Step-IsSound (event_port f env d) h = event_port-IsSound f env d h
Step-IsSound (video_port f env d c m) h = video_port-IsSound f env d c m h
Step-IsSound (error_callback f cb) h =
    unfold filter_set_error_callback in record { ports = h.ports; room = h.room }
Step-IsSound (period_hint f n) h = period_hint-IsSound f n h
Step-IsSound (hold f i enable {p = p} e) h =
    set-IsSound f i _ (port_set_hold_sound f.state enable p (port_sound f i h e)) h
Step-IsSound (starting f caller result) h = start-IsSound caller result f h
Step-IsSound (stopping f same caller drain waits loop k late) h =
    stop-IsSound same caller drain waits f loop k late h
Step-IsSound (event f same e k) h = event-IsSound same f [] e k h
Step-IsSound (linking f same named refused env i {p = p} e) h =
    set-IsSound f i _
      (port_link_sound same f.error_cb f.state named refused env p (port_sound f i h e)) h
Step-IsSound (unlinking f refused i {p = p} e) h =
    set-IsSound f i _ (port_unlink_sound f.state refused p (port_sound f i h e)) h
Step-IsSound (cycle f ios r k) h = record {
  ports = cycle_sound f.state f.ports ios r k h.ports;
  room = omega (arith, h.room, length-write_back f.ports ios);
}

-- Every filter that a sound one reaches, by any calls, events and process callbacks in any order, is sound:
-- only input ports import DMABUF, hold or are linked; unless it runs no port has a link or a buffer of the
-- graph; and the list of ports is within its capacity. A filter
-- is stopped only with a loop, and a process callback comes only while it runs and keeps what each port is.
pub Reach-IsSound : {f g : Filter} → IsSound f → Reach f g → IsSound g
Reach-IsSound h here = h
Reach-IsSound h (next r s) = Step-IsSound s (Reach-IsSound h r)
