-- ===== src/Filter/Target/Tests.antt =====
-- The theorems on a filter's targets at a node with three ports.
use tinypipewire.Common.{ℕ, ◌≡◌, true, [], ◌∷◌, take, select, arith}
use tinypipewire.Registry.{Registry, PortEntry, SpaDirection, unbound, faces}
use tinypipewire.Filter.Target.{pick_target_port}
use tinypipewire.Filter.Target.Lowest.{FirstLowest, pick_target_port-FirstLowest}

abbrev port_of : ℕ → ℕ → PortEntry
port_of id ordinal = record {
  id = id;
  node_id = 40;
  name = "pwf_port_0";
  direction = SpaDirection.output;
  ordinal = ordinal;
}

abbrev graph : Registry
graph = record unbound { bound = true; ports = port_of 52 2 ∷ port_of 50 0 ∷ port_of 51 1 ∷ [] }

pick_target_port-FirstLowest_example :
    (e : PortEntry) × (pick_target_port 40 graph [] ≡ e.id)
    × FirstLowest e (take 64 (select (faces 40 SpaDirection.output) graph.ports))
pick_target_port-FirstLowest_example = pick_target_port-FirstLowest 40 graph [] (λ e. ground arith)
