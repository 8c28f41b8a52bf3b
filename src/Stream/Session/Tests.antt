-- ===== src/Stream/Session/Tests.antt =====
-- The theorem on creating a stream at a server that answers.
use tinypipewire.Common.{true, some, [], ◌∷◌}
use tinypipewire.Common.Int.{pos}
use tinypipewire.Types.{DataType}
use tinypipewire.Core.{ConnectEnv, done}
use tinypipewire.Stream.Session.{stream_create, stream_create_playback}
use tinypipewire.Stream.Session.Balanced.{IsBalancedIfMade, stream_create-IsBalanced}

-- A server that answers.
abbrev working : ConnectEnv
working = record {
  loop_new = true;
  loop_start = true;
  context_new = true;
  context_connect = true;
  seq = 5;
  waits = record { woken = (done true 5 ∷ []) ∷ []; late = [] };
}

stream_create-IsBalanced_example :
    IsBalancedIfMade 2 (stream_create true working DataType.audio (some 7) (pos 2))
    × IsBalancedIfMade 2 (stream_create_playback true working (some 7) (pos 2))
stream_create-IsBalanced_example = stream_create-IsBalanced true working DataType.audio (some 7) 2
