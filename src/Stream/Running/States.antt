-- ===== src/Stream/Running/States.antt =====
-- What every sequence of calls and events keeps of a stream (src/pwf_stream.c).
use tinypipewire.Common.{
  ap, ◌∙◌, inl, inr, ℕ, ◌≡◌, refl, sym, subst, Bool, true, false, Option, none, some, is_some, List,
  [], ◌∷◌, String, arith, ◌⊎◌,
}
use tinypipewire.Types.{PortMemory}
use tinypipewire.Format.{AudioFormat, VideoFormat, lookup_audio_format}
use tinypipewire.Wait.{Waits, handle_all, delivered, await-delivered}
use tinypipewire.Stream.State.{Stream, Caller}
use tinypipewire.Stream.Settings.{
  is_playback, Connecting, AudioConfig, VideoConfig, set_error_callback, set_autoconnect,
  set_target, set_role, internal_connect, set_audio_config, set_video_config_ex, connect_audio,
  connect_video, audio_format_name, video_format, video_format_name, wants_dmabuf, replace_string,
  has_text,
}
use tinypipewire.Stream.Events.{
  StreamEvent, drained, format_changed, is_running, on_stream_event, state_changed,
}
use tinypipewire.Stream.Running.Connected.{Loosened, internal_connect-Connected}
use tinypipewire.Stream.Running.{start, drain_wait, stop}

-- A call of the API, with what PipeWire and the C library return to it, or an event of the stream.
pub data Op : Type 0 where
  error_callback : Option ℕ → Op
  autoconnecting : Bool → Op
  target : Bool → Option String → Op
  role : Bool → Option String → Op
  audio_config : Caller → Connecting → Option AudioConfig → Op
  video_config : Caller → Connecting → Option VideoConfig → Option PortMemory → Op
  starting : Caller → Op
  stopping : Caller → Bool → Waits StreamEvent → Op
  event : StreamEvent → Op

pub run : Op → Stream → Stream
run (error_callback cb) s = (set_error_callback cb s).stream
run (autoconnecting enable) s = (set_autoconnect enable s).stream
run (target copied t) s = (set_target copied t s).stream
run (role copied r) s = (set_role copied r s).stream
run (audio_config caller env config) s = (set_audio_config caller env config s).stream
run (video_config caller env config opts) s = (set_video_config_ex caller env config opts s).stream
run (starting caller) s = (start caller s).stream
run (stopping caller drain waits) s = (stop caller drain waits s).stream
run (event e) s = (on_stream_event s e).1

pub run_ops : List Op → Stream → Stream
run_ops [] s = s
run_ops (op ∷ ops) s = run_ops ops (run op s)

-- A stream with a target is left to the session manager; one that runs or is connected has a format; and
-- only a capture stream hands out DMABUF.
abbrev pub IsConsistent : Stream → Type 0
IsConsistent s =
    (is_some s.target ≡ true → s.autoconnect ≡ true)
    × (s.pw_stream ≡ true → s.configured ≡ true)
    × (is_running s.state ≡ true → s.configured ≡ true)
    × (s.use_dmabuf ≡ true → is_playback s.direction ≡ false)

on_stream_event-IsConsistent :
    (s : Stream) (e : StreamEvent) → IsConsistent s → IsConsistent (on_stream_event s e).1
unfolding on_stream_event
on_stream_event-IsConsistent s (state_changed old new) h = ground arith
on_stream_event-IsConsistent s (format_changed set) h = ground arith
on_stream_event-IsConsistent s drained h = ground arith

handle_all-IsConsistent :
    (s : Stream) (es : List StreamEvent)
    → IsConsistent s
    → IsConsistent (handle_all (λ t e. (on_stream_event t e).1) s es)
unfolding handle_all
handle_all-IsConsistent s [] h = h
handle_all-IsConsistent s (e ∷ es) h =
    handle_all-IsConsistent (on_stream_event s e).1 es (on_stream_event-IsConsistent s e h)

drain_wait-IsConsistent :
    (s : Stream) (waits : Waits StreamEvent) → IsConsistent s → IsConsistent (drain_wait s waits)
unfolding drain_wait
drain_wait-IsConsistent s waits h =
    let asked = record s { drained = false } in
    subst (λ t. IsConsistent t)
      (sym (await-delivered (λ t e. (on_stream_event t e).1) (λ t. t.drained) asked waits))
      (handle_all-IsConsistent asked
        (delivered (λ t e. (on_stream_event t e).1) (λ t. t.drained) asked waits) h)

stop-IsConsistent :
    (caller : Caller) (drain : Bool) (waits : Waits StreamEvent) (s : Stream)
    → IsConsistent s
    → IsConsistent (stop caller drain waits s).stream
unfolding stop
stop-IsConsistent caller drain waits s h = ground (arith, drain_wait-IsConsistent s waits)

replace_string-has_text :
    (copied : Bool) (slot value : Option String)
    → is_some (replace_string copied slot value).1 ≡ true
    → (has_text value ≡ true) ⊎ (is_some slot ≡ true)
unfolding replace_string
replace_string-has_text copied slot value h = ground arith

Loosened-IsConsistent :
    (s t : Stream) → t.pw_stream ≡ false → Loosened s t → IsConsistent s → IsConsistent t
Loosened-IsConsistent s t unconnected l h = (
  λ e. l.3 ∙ h.0 (sym (ap is_some l.2) ∙ e),
  λ p. absurd (ground (arith, p, unconnected)),
  λ r. l.1 ∙ h.2 (l.5 r),
  λ d. ap is_playback l.0 ∙ h.3 (l.4 d),
)

connect_audio-IsConsistent :
    (env : Connecting) (c : AudioConfig) (format : AudioFormat) (s : Stream)
    → IsConsistent s
    → IsConsistent (connect_audio env c format s).stream
unfolding connect_audio
connect_audio-IsConsistent env c format s h = elim (internal_connect-Connected env false s) [
  | inl (good, direction, aim, autoconnect, dmabuf) ↦
      rw (good, connect_audio)
        (
          λ e. autoconnect ∙ h.0 (sym (ap is_some aim) ∙ e),
          λ p. refl,
          λ r. refl,
          λ d. absurd (ground (arith, d, dmabuf)),
        )
  | inr (bad, unconnected, l) ↦
      rw (bad, connect_audio)
        (Loosened-IsConsistent s (internal_connect env false s).stream unconnected l h)
]

connect_video-IsConsistent :
    (env : Connecting) (c : VideoConfig) (format : VideoFormat) (dmabuf : Bool) (s : Stream)
    → is_playback s.direction ≡ false
    → IsConsistent s
    → IsConsistent (connect_video env c format dmabuf s).stream
unfolding connect_video
connect_video-IsConsistent env c format dmabuf s capturing h =
    elim (internal_connect-Connected env dmabuf s) [
      | inl (good, direction, aim, autoconnect, same) ↦
          rw (good, connect_video)
            (
              λ e. autoconnect ∙ h.0 (sym (ap is_some aim) ∙ e),
              λ p. refl,
              λ r. refl,
              λ d. ap is_playback direction ∙ capturing,
            )
      | inr (bad, unconnected, l) ↦
          rw (bad, connect_video)
            (Loosened-IsConsistent s (internal_connect env dmabuf s).stream unconnected l h)
    ]

run-IsConsistent : (op : Op) (s : Stream) → IsConsistent s → IsConsistent (run op s)
unfolding run
run-IsConsistent (error_callback cb) s h = unfold set_error_callback in ground arith
run-IsConsistent (autoconnecting enable) s h = unfold set_autoconnect in ground arith
run-IsConsistent (target copied t) s h =
    unfold set_target in ground (arith, replace_string-has_text copied s.target t)
run-IsConsistent (role copied r) s h = unfold set_role in ground arith
run-IsConsistent (audio_config caller env none) s h = unfold set_audio_config in ground arith
run-IsConsistent (audio_config caller env (some c)) s h =
    unfold set_audio_config in
    ground (arith, connect_audio-IsConsistent env c (lookup_audio_format (audio_format_name c)) s)
run-IsConsistent (video_config caller env none opts) s h =
    unfold set_video_config_ex in ground arith
run-IsConsistent (video_config caller env (some c) opts) s h =
    unfold set_video_config_ex in
    ground (
      arith,
      connect_video-IsConsistent env c (video_format (video_format_name c)) (wants_dmabuf opts) s,
    )
run-IsConsistent (starting caller) s h = unfold start in ground arith
run-IsConsistent (stopping caller drain waits) s h = stop-IsConsistent caller drain waits s h
run-IsConsistent (event e) s h = on_stream_event-IsConsistent s e h

-- Every sequence of calls and events, with every outcome of what PipeWire and the C library return to
-- them, keeps a stream consistent (`IsConsistent`).
pub run_ops-IsConsistent :
    (ops : List Op) (s : Stream) → IsConsistent s → IsConsistent (run_ops ops s)
unfolding run_ops
run_ops-IsConsistent [] s h = h
run_ops-IsConsistent (op ∷ ops) s h = run_ops-IsConsistent ops (run op s) (run-IsConsistent op s h)
