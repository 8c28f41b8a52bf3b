-- ===== src/Stream/Targets/Listed.antt =====
-- What a listing of src/pwf_stream_routing.c tells of the graph.
use tinypipewire.Common.{
  ℕ, suc, ◌+◌, ◌≡◌, some, List, [], ◌∷◌, ◌++◌, String, arith, length, take, drop, set, ltb,
  if◌then◌else◌, overlay, overlay-nil, overlay-cons, overlay_front, length-fill,
}
use tinypipewire.Types.{ok}
use tinypipewire.Core.{error_from_sync}
use tinypipewire.Registry.{NodeEntry}
use tinypipewire.Registry.Bind.{Binding, Bound, registry_bind}
use tinypipewire.Stream.State.{Stream, Caller}
use tinypipewire.Stream.Targets.{
  TargetInfo, is_target, target_info, target_loop, target_media_class, get_target_list,
}

module _ (clip : ℕ → String → String) (digits : ℕ → String) where
  -- The nodes of a class as they are written, in the registry's order.
  pub targets : String → List NodeEntry → List TargetInfo
  targets media_class [] = []
  targets media_class (e ∷ nodes) =
      let rest = targets media_class nodes in
      if is_target media_class e then target_info clip digits e ∷ rest else rest

  target_loop-overlay :
      (media_class : String) (nodes : List NodeEntry) (n : ℕ) (buf : List TargetInfo)
      → target_loop clip digits media_class n (some buf) nodes
        ≡ (n + length (targets media_class nodes), some (overlay n (targets media_class nodes) buf))
  unfolding target_loop targets
  target_loop-overlay media_class [] n buf = ground (arith, overlay-nil n buf)
  target_loop-overlay media_class (e ∷ nodes) n buf =
      let x = target_info clip digits e in
      let buf' = if ltb n (length buf) then set buf n x else buf in
      ground (
        arith,
        target_loop-overlay media_class nodes n buf,
        target_loop-overlay media_class nodes (suc n) buf',
        length-fill buf n x,
        overlay-cons n x (targets media_class nodes) buf,
      )

  -- A listing that succeeds counts all nodes of the class that the stream can be given, also where the array is
  -- shorter, and the array holds the first of them in the registry's order, with its other places as they were.
  pub get_target_list_fills :
      (strtoull : String → ℕ) (etimedout : ℕ) (caller : Caller) (s : Stream) (env : Binding)
      (buf : List TargetInfo) (b : Bound)
      → let r = get_target_list strtoull etimedout clip digits caller s env (some buf) b in
        let all = targets (target_media_class s) r.bound.registry.nodes in
        r.code ≡ ok
        → (r.found ≡ length all)
          × (r.written ≡ some (take (length buf) all ++ drop (length all) buf))
  unfolding get_target_list error_from_sync
  get_target_list_fills strtoull etimedout caller s env buf b h =
      let (result, b', calls) = registry_bind strtoull etimedout env b in
      let all = targets (target_media_class s) b'.registry.nodes in
      ground (
        arith,
        h,
        target_loop-overlay (target_media_class s) b'.registry.nodes 0 buf,
        overlay_front all buf,
      )
