-- ===== src/Stream/Routing/Device.antt =====
-- src/pwf_stream_routing.c: the wait for a stream's own ports.
use tinypipewire.Common.{
  ℕ, ◌≤◌, ◌≡◌, Bool, false, Option, none, some, String, leb, if◌then◌else◌, arith, Option-cases,
  inl, inr,
}
use tinypipewire.Types.{Code, ok, timeout}
use tinypipewire.Wait.{Waits, await, await-done}
use tinypipewire.Registry.{SpaDirection, input, output}
use tinypipewire.Registry.Ports.{list_ports}
use tinypipewire.Registry.Bind.{Bound, RegistryEvent, on_registry_event}
use tinypipewire.Stream.State.{Stream}
use tinypipewire.Stream.Settings.{is_playback}

-- `pwf_stream_own_direction`
unfoldable pub own_direction : Stream → SpaDirection
own_direction stream = if is_playback stream.direction then output else input

-- What arrives during the wait: the server numbers the stream's node, or the registry has an event.
pub data OwnEvent : Type 0 where
  numbered : ℕ → OwnEvent
  at_registry : RegistryEvent → OwnEvent

-- The node's id, `none` for SPA_ID_INVALID, and the registry on its connection
pub record OwnView : Type 0 where
  pub node_id : Option ℕ
  pub bound : Bound

-- The loop's condition
unfoldable pub own_ports_there : SpaDirection → ℕ → OwnView → Bool
own_ports_there dir expected view = elim view.node_id [
  | none ↦ false
  | some id ↦ leb expected (list_ports view.bound.registry id dir none).0
]

module _ (strtoull : String → ℕ) (etimedout : ℕ) where
  unfoldable pub on_own_event : OwnView → OwnEvent → OwnView
  on_own_event view (numbered id) = record view { node_id = some id }
  on_own_event view (at_registry e) = record view {
    bound = on_registry_event strtoull etimedout view.bound e;
  }

  -- `pwf_stream_await_own_ports`: what it returns, and the view at its end, with the node's id.
  unfoldable pub await_own_ports : SpaDirection → ℕ → OwnView → Waits OwnEvent → Code × OwnView
  await_own_ports dir expected view waits =
      let (view', late) = await on_own_event (own_ports_there dir expected) view waits in
      (if late then timeout else ok, view')

  -- A wait that succeeds ends with a node that has an id and as many ports as the stream expects.
  pub await_own_ports_there :
      (dir : SpaDirection) (expected : ℕ) (view : OwnView) (waits : Waits OwnEvent)
      → (await_own_ports dir expected view waits).0 ≡ ok
      → let after = (await_own_ports dir expected view waits).1 in
        (id : ℕ) × (after.node_id ≡ some id)
        × (expected ≤ (list_ports after.bound.registry id dir none).0)
  unfolding await_own_ports own_ports_there
  await_own_ports_there dir expected view waits h =
      let over = await on_own_event (own_ports_there dir expected) view waits in
      let in_time : over.1 ≡ false = ground (arith, h) in
      let there = await-done on_own_event (own_ports_there dir expected) view waits in_time in
      elim (Option-cases over.0.node_id) [
        | inl e ↦ absurd (ground (arith, there, e))
        | inr (id, e) ↦ (id, e, ground (arith, there, e))
      ]
