-- ===== src/Stream/Tests.antt =====
-- The theorems on src/pwf_stream.c, src/pwf_buffer.c and src/pwf_stream_playback.c at concrete streams.
use tinypipewire.Common.{
  ℕ, zero, suc, ◌-◌, ◌%◌, ◌≤◌, ◌<◌, ◌≡◌, refl, true, false, Option, none, some, List, [], ◌∷◌, ◌++◌,
  String, take, drop, replicate, arith,
}
use tinypipewire.Common.Int.{pos, negsuc}
use tinypipewire.Types.{audio, ok, SpaData, PwBuffer, mem_ptr}
use tinypipewire.Format.{AudioFormat, VideoFormat}
use tinypipewire.RateLimit.{fresh, report}
use tinypipewire.Wait.{Waits}
use tinypipewire.Dmabuf.{Plane}
use tinypipewire.Stream.State.{Stream, capture, created, running, Caller}
use tinypipewire.Stream.Settings.{Connecting, AudioConfig}
use tinypipewire.Stream.Running.States.{
  Op, audio_config, starting, stopping, event, target, autoconnecting, run_ops,
  run_ops-IsConsistent, IsConsistent,
}
use tinypipewire.Stream.Playback.{PlaybackCallback, playback_fill}
use tinypipewire.Stream.Playback.Fill.{playback_fill_lem}
use tinypipewire.Stream.Routing.{Linking, Routing, Routed, info, active, link}
use tinypipewire.Stream.Routing.AllOrNothing.{link-all_or_nothing, Promised, AllStay}
use tinypipewire.Stream.Capture.{DataCallback, on_process, get_dmabuf_planes, deliver_dmabuf}
use tinypipewire.Stream.Events.{StreamEvent, drained, error, state_changed, streaming}
use tinypipewire.Stream.Capture.Delivery.{on_process-releases, deliver_dmabuf-reading, reading}

-- An audio capture stream as `pwf_stream_create` leaves it.
abbrev made : Stream
made = record {
  type = audio;
  direction = capture;
  state = created;
  configured = false;
  audio_format = record { sample_rate = pos 0; channels = pos 0; format = AudioFormat.unknown };
  video_format = record { width = pos 0; height = pos 0; format = VideoFormat.unknown };
  bytes_per_frame = 0;
  overrun = fresh;
  unusable = fresh;
  drained = false;
  use_dmabuf = false;
  current_dmabuf_buf = none;
  dmabuf_retrieved = false;
  dmabuf_unretrieved = fresh;
  data_cb = some 1;
  playback_cb = none;
  error_cb = none;
  target = none;
  role = none;
  autoconnect = true;
  links = none;
  loop = true;
  pw_stream = false;
}

abbrev live_stream : Stream
live_stream = record made {
  state = running;
  configured = true;
  pw_stream = true;
  bytes_per_frame = 4;
  playback_cb = some 2;
}

abbrev outside : Caller
outside = record { in_callback = false; on_loop_thread = false }

abbrev stereo : AudioConfig
stereo = record { sample_rate = pos 48000; channels = pos 2; format = none }

abbrev connects : Connecting
connects = record { destroying = []; aborting = []; made = true; result = pos 0 }

abbrev refuses : Connecting
refuses = record { destroying = []; aborting = []; made = true; result = negsuc 1 }

-- The deadline passes, and the drained event comes late.
abbrev slow : Waits StreamEvent
slow = record { woken = []; late = drained ∷ [] }

abbrev session : List Op
session =
    target true (some "mic")
    ∷ autoconnecting false
    ∷ audio_config outside connects (some stereo)
    ∷ starting outside
    ∷ event (state_changed streaming error)
    ∷ stopping outside true slow
    ∷ []

made-IsConsistent : IsConsistent made
made-IsConsistent = (λ h. ground arith, λ h. ground arith, λ h. ground arith, λ h. ground arith)

-- An application that writes six bytes and reports so.
abbrev six_bytes : PlaybackCallback
six_bytes stream memory available pts =
    (stream, 6, 1 ∷ 2 ∷ 3 ∷ 4 ∷ 5 ∷ 6 ∷ 0 ∷ 0 ∷ 0 ∷ 0 ∷ 0 ∷ 0 ∷ [])

abbrev region : SpaData
region = record {
  type = mem_ptr;
  mapped = some (replicate 12 7);
  maxsize = 12;
  chunk = some (record { offset = 0; size = 8; stride = pos 4 });
  fd = negsuc 0;
  mapoffset = 0;
}

abbrev cycle_buffer : PwBuffer
cycle_buffer = record {
  address = 70;
  buffer = record { n_datas = 1; datas = λ i. region; header_pts = none };
  requested = 2;
  size = 0;
}

abbrev ignoring : DataCallback
ignoring stream frame = stream

abbrev dmabuf_stream : Stream
dmabuf_stream = record live_stream { use_dmabuf = true }

abbrev one_plane : List Plane
one_plane = record { fd = pos 0; offset = 0; stride = 0; size = 0 } ∷ []

-- A link that becomes active.
abbrev negotiated : Linking
negotiated = record {
  properties = true;
  proxy = true;
  waits = record { woken = (info true active ∷ []) ∷ []; late = [] };
}

abbrev half_way_links : ℕ → Linking
half_way_links zero = negotiated
half_way_links (suc i) = record negotiated { proxy = false }

-- Two channels to node 60, of which the second cannot be made.
abbrev half_way : Routing
half_way = record {
  bound = ok;
  own_ports = ok;
  target_node = 60;
  n_own = 2;
  n_peer = 4;
  set_made = true;
  links_made = true;
  links = half_way_links;
}

abbrev mic : Option String
mic = some "mic"

abbrev unrouted : Stream
unrouted = record live_stream { autoconnect = false }

half_way-AllStay : (k : ℕ) → AllStay 60 (half_way.links k).waits
half_way-AllStay zero = (((tt, tt), tt), tt)
half_way-AllStay (suc k) = (((tt, tt), tt), tt)

link-all_or_nothing_example :
    (r : Routed) × (link outside half_way mic unrouted ≡ some r) × Promised half_way unrouted r
link-all_or_nothing_example = link-all_or_nothing outside half_way mic unrouted half_way-AllStay

run_ops-IsConsistent_example : IsConsistent (run_ops session made)
run_ops-IsConsistent_example = run_ops-IsConsistent session made made-IsConsistent

playback_fill_lem_example :
    let after = six_bytes live_stream (replicate 12 7) 12 (negsuc 0) in
    let filled = playback_fill six_bytes live_stream (replicate 12 7) 12 (negsuc 0) 100 200 in
    (filled.size ≤ 12)
    × (filled.size ≤ after.1)
    × (0 < after.0.bytes_per_frame → filled.size % after.0.bytes_per_frame ≡ 0)
    × (filled.memory
        ≡ take filled.size after.2 ++ (replicate (12 - filled.size) 0 ++ drop 12 after.2))
playback_fill_lem_example =
    playback_fill_lem six_bytes live_stream (replicate 12 7) 12 (negsuc 0) 100 200

on_process-releases_example :
    let after = on_process ignoring dmabuf_stream (some cycle_buffer) 100 in
    (after.queued ≡ some cycle_buffer)
    × (get_dmabuf_planes (some after.stream) (some one_plane) 1
        ≡ (0, (some one_plane), some after.stream))
on_process-releases_example =
    on_process-releases ignoring dmabuf_stream cycle_buffer 100 (some one_plane) 1 refl
      (λ s f. refl)

deliver_dmabuf-reading_example :
    ((deliver_dmabuf
        (reading one_plane)
        dmabuf_stream
        cycle_buffer.buffer
        (negsuc 0)
        100).dmabuf_unretrieved
      ≡ dmabuf_stream.dmabuf_unretrieved)
    × ((deliver_dmabuf
          (λ s f. s)
          dmabuf_stream
          cycle_buffer.buffer
          (negsuc 0)
          100).dmabuf_unretrieved
        ≡ (report dmabuf_stream.dmabuf_unretrieved 100).1)
deliver_dmabuf-reading_example =
    deliver_dmabuf-reading dmabuf_stream one_plane cycle_buffer.buffer (negsuc 0) 100 refl
