-- ===== src/Stream/Links.antt =====
-- src/pwf_stream_routing.c: the set of a stream's links, its release, and the device that goes.
use tinypipewire.Common.{
  ℕ, suc, ◌≡◌, Bool, true, false, Option, none, some, is_some, List, [], ◌∷◌, take, ◌==◌,
  if◌then◌else◌, arith, Option-cases, inl, inr,
}
use tinypipewire.Types.{Code, source_unavailable}
use tinypipewire.Stream.State.{Stream}

-- The links among these, the first of them link i, that have a proxy.
unfoldable pub proxies_from : ℕ → List Bool → List ℕ
proxies_from i [] = []
proxies_from i (true ∷ proxies) = i ∷ proxies_from (suc i) proxies
proxies_from i (false ∷ proxies) = proxies_from (suc i) proxies

-- `pwf_stream_release_links`: the stream, and the links whose proxy is destroyed.
unfoldable pub release_links : Stream → Stream × List ℕ
release_links stream = elim stream.links [
  | none ↦ (stream, [])
  | some set ↦ (record stream { links = none }, proxies_from 0 (take set.n_links set.proxies))
]

-- `pwf_stream_on_node_removed`: the stream, the links whose proxy is destroyed, and what the error
-- callback is told.
unfoldable pub on_node_removed : Stream → ℕ → Stream × List ℕ × Option Code
unfolding release_links
on_node_removed stream id = elim stream.links [
  | none ↦ (stream, [], none)
  | some set ↦
      let released = release_links stream in
      if set.target_node_id == id
      then (
        released.0,
        released.1,
        if is_some stream.error_cb then some source_unavailable else none,
      )
      else (stream, [], none)
]

-- A device that goes is told once: its links are released, and its removal again changes nothing more.
pub on_node_removed_once :
    (stream : Stream) (id : ℕ)
    → let after = (on_node_removed stream id).0 in on_node_removed after id ≡ (after, [], none)
unfolding on_node_removed
on_node_removed_once stream id = elim (Option-cases stream.links) [
  | inl e ↦ ground arith
  | inr (set, e) ↦ ground arith
]
