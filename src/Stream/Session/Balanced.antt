-- ===== src/Stream/Session/Balanced.antt =====
-- That creating a stream (src/pwf_stream.c) leaves nothing behind where it fails, and that destroying one
-- takes back what creating it did.
use tinypipewire.Common.{
  ℕ, ◌+◌, ◌≡◌, Bool, true, false, Option, none, some, [], refl, arith, inl, inr, Option-cases,
}
use tinypipewire.Common.Int.{pos, is_negative}
use tinypipewire.Types.{DataType}
use tinypipewire.Wait.{Waits}
use tinypipewire.Core.{Conn, ConnectEnv, core_connect, global_deinit, core_teardown}
use tinypipewire.Core.Lifetime.{held}
use tinypipewire.Core.Opened.{
  zeroed, Opened, IsDown, IsBalanced, deinit_calls, give_up-IsBalanced, tear_down-IsBalanced,
  succeed-IsBalanced, core_connect-IsUp,
}
use tinypipewire.Registry.{Registry}
use tinypipewire.Stream.State.{Stream, StreamDirection, Caller, refuse_in_callback}
use tinypipewire.Stream.Events.{StreamEvent}
use tinypipewire.Stream.Session.{
  fresh_stream, stream_alloc, attach, stream_create, stream_create_playback, stream_teardown,
  stream_destroy,
}

stream_alloc-IsBalanced :
    (allocated : Bool) (env : ConnectEnv) (type : DataType) (direction : StreamDirection) (n : ℕ)
    → IsBalanced n (stream_alloc allocated env type direction (pos n))
unfolding stream_alloc held
stream_alloc-IsBalanced allocated env type direction n =
    let (conn, result, calls) = core_connect zeroed env in
    let (free, up) = core_connect-IsUp env in
    let down : IsDown zeroed = (refl, refl, refl) in
    ground (
      arith,
      up,
      give_up-IsBalanced {A = Stream} n [] zeroed refl down,
      tear_down-IsBalanced {A = Stream} n calls conn free,
      λ (h : is_negative result ≡ false).
          succeed-IsBalanced n calls conn (fresh_stream type direction conn) free (up h),
    )

attach-IsBalanced :
    (n : ℕ) (f : Stream → Stream) (o : Opened Stream) → IsBalanced n o → IsBalanced n (attach f o)
unfolding attach
attach-IsBalanced n f o b = elim (Option-cases o.handle) [
  | inl e ↦ ground (arith, b)
  | inr (s, e) ↦ ground (arith, b)
]

-- What `pwf_stream_create` and `pwf_stream_create_playback` leave where they allocate at all.
abbrev pub IsBalancedIfMade : ℕ → Option (Opened Stream) → Type 0
IsBalancedIfMade n none = Unit {0}
IsBalancedIfMade n (some o) = IsBalanced n o

-- However creating a stream goes, for capture or for playback, the loop lock is free afterwards. Either there is
-- no stream, then nothing of the connection is left, the count of clients is what it was, and PipeWire is
-- shut down again if this call initialised it; or there is one, then it is connected, and it is
-- counted once more.
pub stream_create-IsBalanced :
    (allocated : Bool) (env : ConnectEnv) (type : DataType) (callback : Option ℕ) (n : ℕ)
    → IsBalancedIfMade n (stream_create allocated env type callback (pos n))
      × IsBalancedIfMade n (stream_create_playback allocated env callback (pos n))
unfolding stream_create stream_create_playback
stream_create-IsBalanced allocated env type callback n =
    let capture = stream_alloc allocated env type StreamDirection.capture (pos n) in
    let playback = stream_alloc allocated env DataType.audio StreamDirection.playback (pos n) in
    ground (
      arith,
      attach-IsBalanced n (λ s. record s { data_cb = callback }) capture
          (stream_alloc-IsBalanced allocated env type StreamDirection.capture n),
      attach-IsBalanced n (λ s. record s { playback_cb = callback }) playback
          (stream_alloc-IsBalanced allocated env DataType.audio StreamDirection.playback n),
    )

-- Destroying a stream from where it is allowed leaves no stream and nothing of the connection, takes it from
-- the count, shuts PipeWire down if it was the last client and only then, and gives the loop lock back.
pub stream_destroy-released :
    (caller : Caller) (waits : Waits StreamEvent) (s : Stream) (conn : Conn) (reg : Registry)
    (n : ℕ)
    → refuse_in_callback caller s true ≡ false
    → let d = stream_destroy caller waits s conn reg (pos (n + 1)) in
      (d.stream ≡ none)
      × (d.count ≡ pos n)
      × (d.globals ≡ deinit_calls n)
      × IsDown d.last
      × (held false d.calls ≡ false)
unfolding stream_destroy stream_teardown core_teardown global_deinit held
stream_destroy-released caller waits s conn reg n h = ground (arith, h)
