-- ===== src/Registry/Tests.antt =====
-- The theorems on the registry at a graph of two nodes and three ports.
use tinypipewire.Common.{
  ℕ, ◌≡◌, ◌≢◌, refl, ◌⊎◌, true, false, Option, none, some, List, [], ◌∷◌, String, All,
  if◌then◌else◌, length, take, select,
}
use tinypipewire.Registry.{
  unbound, SpaDirection, Registry, NodeEntry, PortEntry, output, NodeProps, node, Alloc,
  node_removed, Global, other, on_global, on_global_remove, find_port, find_node_by_name, faces,
}
use mathlib.Core.List.{Perm}
use tinypipewire.Registry.Ports.{list_ports}
use tinypipewire.Registry.Ordering.{list_ports_lem, Rising, of_ordinal}
use tinypipewire.Core.{done}
use tinypipewire.Core.Opened.{zeroed}
use tinypipewire.Core.Sync.{is_error, is_answer, Some}
use tinypipewire.Registry.Bind.{
  Bound, Binding, at_core, announced, registry_bind, registry_bind-Enumerated, cached, core_events,
  enumerated,
}
use tinypipewire.Registry.Removal.{on_global_remove-Removal}
use tinypipewire.Registry.Lookup.{find_node_by_name-on_global, on_globals}

abbrev port_of : ℕ → ℕ → PortEntry
port_of id ordinal = record {
  id = id;
  node_id = 40;
  name = "capture";
  direction = output;
  ordinal = ordinal;
}

abbrev sink : NodeEntry
sink = record {
  id = 41;
  name = "sink";
  serial = 9;
  media_class = some "Audio/Sink";
  description = none;
}

abbrev graph : Registry
graph = record {
  bound = true;
  nodes = record sink { id = 40; name = "mic" } ∷ sink ∷ [];
  nodes_capacity = 16;
  ports = port_of 52 2 ∷ port_of 50 0 ∷ port_of 51 1 ∷ [];
  ports_capacity = 32;
  node_removed_cb = true;
  port_added_cb = false;
}

abbrev camera : NodeProps
camera = record {
  name = some "camera";
  serial = some "12";
  media_class = some "Video/Source";
  description = none;
}

abbrev camera_name : String
camera_name = "camera"

abbrev enough : Alloc
enough = record { grow = true; name = true; media_class = true; description = true }

abbrev twelve : String → ℕ
twelve s = 12

list_ports_lem_example :
    let sel = select (faces 40 output) graph.ports in
    let (found, out) = list_ports graph 40 output (some 2) in
    (found ≡ length sel) × Rising out × ((o : ℕ) → of_ordinal o out ≡ of_ordinal o (take 2 sel))
list_ports_lem_example = list_ports_lem graph 40 output 2

on_global_remove-Removal_example :
    let (reg', notices) = on_global_remove graph 40 in
    ((All (λ e. e.id ≢ 40) graph.nodes × (reg'.nodes ≡ graph.nodes) × (notices ≡ []))
      ⊎ ((e : NodeEntry) × (e.id ≡ 40)
          × Perm graph.nodes (e ∷ reg'.nodes)
          × (notices ≡ (if graph.node_removed_cb then node_removed 40 ∷ [] else []))))
    × ((All (λ e. e.id ≢ 40) graph.ports × (reg'.ports ≡ graph.ports))
        ⊎ ((e : PortEntry) × (e.id ≡ 40) × Perm graph.ports (e ∷ reg'.ports)))
on_global_remove-Removal_example = on_global_remove-Removal graph 40

-- Another node under the same name, and a global of another kind.
abbrev afterwards : List (ℕ × Alloc × Option Global)
afterwards = (61, enough, some (node camera)) ∷ (62, enough, some other) ∷ []

find_node_by_name-on_global_example :
    let announced = (on_global twelve graph 60 enough (some (node camera))).0 in
    find_node_by_name (on_globals twelve announced afterwards) camera_name ≡ 60
find_node_by_name-on_global_example =
    find_node_by_name-on_global twelve graph 60 enough camera camera_name afterwards refl
      (refl, (refl, tt)) refl refl

abbrev no_number : String → ℕ
no_number s = 0

abbrev unbound_yet : Bound
unbound_yet = record {
  registry = unbound;
  conn = record zeroed { loop = true; context = true; core = true };
}

-- A global is announced, and the server answers.
abbrev binding : Binding
binding = record {
  made = true;
  seq = 5;
  waits = record {
    woken = (announced 40 enough none ∷ at_core (done true 5) ∷ []) ∷ [];
    late = [];
  };
}

registry_bind-Enumerated_example :
    ((registry_bind no_number 110 binding unbound_yet).1.registry
      ≡ cached no_number 110
          (record unbound { bound = true })
          (enumerated no_number 110 binding unbound_yet))
    × All
        (λ e. is_error e ≡ false)
        (core_events no_number 110 (enumerated no_number 110 binding unbound_yet))
    × Some (is_answer 5) (core_events no_number 110 (enumerated no_number 110 binding unbound_yet))
unfolding registry_bind tinypipewire.Registry.Bind.sync_bound
    tinypipewire.Registry.Bind.on_registry_event tinypipewire.Wait.await tinypipewire.Core.on_event
registry_bind-Enumerated_example =
    registry_bind-Enumerated no_number 110 binding unbound_yet refl refl
