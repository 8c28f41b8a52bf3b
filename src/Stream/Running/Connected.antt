-- ===== src/Stream/Running/Connected.antt =====
-- What connecting a stream anew leaves of it (src/pwf_stream.c).
use tinypipewire.Common.{
  ◌∙◌, inl, inr, Bool-cases, if◌then◌else◌, ◌≡◌, refl, sym, Bool, true, false, List, [], ◌∷◌, arith,
  ◌⊎◌,
}
use tinypipewire.Common.Int.{is_negative}
use tinypipewire.Types.{ok, connect_failed}
use tinypipewire.Wait.{handle_all}
use tinypipewire.Stream.State.{Stream}
use tinypipewire.Stream.Settings.{Outcome, Connecting, internal_connect}
use tinypipewire.Stream.Events.{
  after_events, StreamEvent, drained, format_changed, is_running, on_stream_event, state_changed,
}

-- What the formats keep of a stream through events.
abbrev Kept : Stream → Stream → Type 0
Kept s t =
    (t.direction ≡ s.direction)
    × (t.configured ≡ s.configured)
    × (t.pw_stream ≡ s.pw_stream)
    × (t.target ≡ s.target)
    × (t.autoconnect ≡ s.autoconnect)
    × (t.use_dmabuf ≡ s.use_dmabuf)
    × (is_running t.state ≡ true → is_running s.state ≡ true)

after_events-Kept : (s : Stream) (es : List StreamEvent) → Kept s (after_events s es)
unfolding after_events on_stream_event handle_all
after_events-Kept s [] = (refl, refl, refl, refl, refl, refl, λ r. r)
after_events-Kept s (state_changed old new ∷ es) =
    ground (arith, after_events-Kept (on_stream_event s (state_changed old new)).1 es)
after_events-Kept s (format_changed set ∷ es) =
    ground (arith, after_events-Kept (on_stream_event s (format_changed set)).1 es)
after_events-Kept s (drained ∷ es) =
    ground (arith, after_events-Kept (on_stream_event s drained).1 es)

-- What connecting leaves of a stream, whether it succeeds or not: the buffers are DMABUF only if they were,
-- and the stream runs only if it did.
abbrev pub Loosened : Stream → Stream → Type 0
Loosened s t =
    (t.direction ≡ s.direction)
    × (t.configured ≡ s.configured)
    × (t.target ≡ s.target)
    × (t.autoconnect ≡ s.autoconnect)
    × (t.use_dmabuf ≡ true → s.use_dmabuf ≡ true)
    × (is_running t.state ≡ true → is_running s.state ≡ true)

-- The stream once the one from before is destroyed.
abbrev disconnected : Connecting → Stream → Stream
disconnected env s =
    if s.pw_stream
    then record (after_events (record s { use_dmabuf = false }) env.destroying) {
      pw_stream = false;
    }
    else s

disconnected-Loosened : (env : Connecting) (s : Stream) → Loosened s (disconnected env s)
disconnected-Loosened env s =
    let cleared = record s { use_dmabuf = false } in
    let gone = record (after_events cleared env.destroying) { pw_stream = false } in
    let (direction, configured, connected, aim, autoconnect, dmabuf, running) =
      after_events-Kept cleared env.destroying in
    elim s.pw_stream as (λ b. Loosened s (if b then gone else s)) [
      | true ↦ (
        direction,
        configured,
        aim,
        autoconnect,
        λ d. absurd (ground (arith, d, dmabuf)),
        running,
      )
      | false ↦ (refl, refl, refl, refl, λ d. d, λ r. r)
    ]

aborted-Loosened :
    (s t : Stream) (es : List StreamEvent) → Loosened s t → Loosened s (after_events t es)
aborted-Loosened s t es l =
    let (direction, configured, connected, aim, autoconnect, dmabuf, running) =
      after_events-Kept t es in
    (
      direction ∙ l.0,
      configured ∙ l.1,
      aim ∙ l.2,
      autoconnect ∙ l.3,
      λ d. l.4 (sym dmabuf ∙ d),
      λ r. l.5 (running r),
    )

-- Connecting either succeeds, and then the stream is connected with the buffers that were asked for, or
-- fails and leaves it without a PipeWire stream.
abbrev pub Connected : Bool → Stream → Outcome → Type 0
Connected dmabuf s r =
    ((r.code ≡ ok)
      × (r.stream.direction ≡ s.direction)
      × (r.stream.target ≡ s.target)
      × (r.stream.autoconnect ≡ s.autoconnect)
      × (r.stream.use_dmabuf ≡ dmabuf))
    ⊎ ((r.code ≡ connect_failed) × (r.stream.pw_stream ≡ false) × Loosened s r.stream)

disconnected-pw_stream : (env : Connecting) (s : Stream) → (disconnected env s).pw_stream ≡ false
disconnected-pw_stream env s =
    let gone = record (after_events (record s { use_dmabuf = false }) env.destroying) {
      pw_stream = false;
    } in
    elim s.pw_stream as (λ b. s.pw_stream ≡ b → (if b then gone else s).pw_stream ≡ false) [
      | true ↦ λ p. refl
      | false ↦ λ p. p
    ]
      refl

pub internal_connect-Connected :
    (env : Connecting) (dmabuf : Bool) (s : Stream)
    → Connected dmabuf s (internal_connect env dmabuf s)
unfolding internal_connect
internal_connect-Connected env dmabuf s =
    let loosened = disconnected-Loosened env s in
    elim (Bool-cases env.made) [
      | inr m ↦ rw m (inr (refl, disconnected-pw_stream env s, loosened))
      | inl m ↦ elim (Bool-cases (is_negative env.result)) [
        | inl n ↦
            rw (m, n)
              (inr (refl, refl, aborted-Loosened s (disconnected env s) env.aborting loosened))
        | inr n ↦ rw (m, n) (inl (refl, loosened.0, loosened.2, loosened.3, refl))
      ]
    ]
