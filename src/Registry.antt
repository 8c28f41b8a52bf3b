-- ===== src/Registry.antt =====
-- The registry part of src/pwf_pw_core.c: the caches of the graph's nodes and ports that PipeWire's
-- registry events keep current, and the lookups in them.
mod Tests
pub mod Ports
pub mod Ordering
pub mod Removal
pub mod Lookup
pub mod Bind
use tinypipewire.Common.{
  ℕ, zero, suc, ◌+◌, ◌-◌, ◌*◌, ◌%◌, ◌^◌, String, str_eq, Bool, true, false, not, ◌&&◌, ◌||◌, Option,
  none, some, is_some, List, [], ◌∷◌, ◌++◌, length, get_elem?, set, take, ltb, leb, ◌==◌,
  if◌then◌else◌,
}

-- `enum spa_direction`
pub data SpaDirection : Type 0 where
  input output : SpaDirection

abbrev pub same_direction : SpaDirection → SpaDirection → Bool
same_direction input input = true
same_direction output output = true
same_direction input output = false
same_direction output input = false

-- `struct pwf_pw_node_entry`
pub record NodeEntry : Type 0 where
  pub id : ℕ
  pub name : String
  pub serial : ℕ
  pub media_class : Option String
  pub description : Option String

-- `struct pwf_pw_port_entry`
pub record PortEntry : Type 0 where
  pub id : ℕ
  pub node_id : ℕ
  pub name : String
  pub direction : SpaDirection
  pub ordinal : ℕ

-- `struct pwf_pw_registry`. `bound` is `registry != NULL`; the counts are the lists' lengths; a
-- callback is present or not, and its data is fixed by whoever sets it.
pub record Registry : Type 0 where
  pub bound : Bool
  pub nodes : List NodeEntry
  pub nodes_capacity : ℕ
  pub ports : List PortEntry
  pub ports_capacity : ℕ
  pub node_removed_cb : Bool
  pub port_added_cb : Bool

-- A zeroed registry.
abbrev pub unbound : Registry
unbound = record {
  bound = false;
  nodes = [];
  nodes_capacity = 0;
  ports = [];
  ports_capacity = 0;
  node_removed_cb = false;
  port_added_cb = false;
}

-- The callbacks that the handlers make.
pub data Notice : Type 0 where
  port_added node_removed : ℕ → Notice

-- What `spa_dict_lookup` finds in the properties of a node and of a port.
pub record NodeProps : Type 0 where
  pub name : Option String
  pub serial : Option String
  pub media_class : Option String
  pub description : Option String

pub record PortProps : Type 0 where
  pub name : Option String
  pub node_id : Option String
  pub direction : Option String
  pub ordinal : Option String

-- Which of the two interfaces `type` names, with the properties.
pub data Global : Type 0 where
  node : NodeProps → Global
  port : PortProps → Global
  other : Global

-- Which allocations of one call succeed.
pub record Alloc : Type 0 where
  pub grow : Bool
  pub name : Bool
  pub media_class : Bool
  pub description : Bool

-- `s ? strdup(s) : NULL`
abbrev dup : Bool → Option String → Option String
dup true s = s
dup false s = none

module _ (strtoull : String → ℕ) where
  number : Option String → ℕ
  number none = 0
  number (some s) = strtoull s

  node_entry : ℕ → String → Alloc → NodeProps → NodeEntry
  unfolding number
  node_entry id name alloc props = record {
    id = id;
    name = name;
    serial = number props.serial;
    media_class = dup alloc.media_class props.media_class;
    description = dup alloc.description props.description;
  }

  -- The capacity after the growth step, `none` where `realloc` fails.
  grown : ℕ → ℕ → ℕ → Bool → Option ℕ
  grown first n capacity ok =
      if n == capacity
      then (if ok then some (if capacity == 0 then first else capacity * 2) else none)
      else some capacity

  unfoldable pub add_node : Registry → ℕ → Alloc → NodeProps → Registry
  unfolding node_entry grown
  add_node reg id alloc props = elim props.name [
    | none ↦ reg
    | some name ↦ elim (grown 16 (length reg.nodes) reg.nodes_capacity alloc.grow) [
      | none ↦ reg
      | some capacity ↦
          if alloc.name
          then record reg {
            nodes = reg.nodes ++ node_entry id name alloc props ∷ [];
            nodes_capacity = capacity;
          }
          else record reg { nodes_capacity = capacity }
    ]
  ]

  -- `(dir && strcmp(dir, "out") == 0) ? SPA_DIRECTION_OUTPUT : SPA_DIRECTION_INPUT`
  port_direction : Option String → SpaDirection
  port_direction none = input
  port_direction (some dir) = if str_eq dir "out" then output else input

  port_entry : ℕ → String → String → PortProps → PortEntry
  unfolding number port_direction
  port_entry id name node_id props = record {
    id = id;
    node_id = strtoull node_id % 2 ^ 32;
    name = name;
    direction = port_direction props.direction;
    ordinal = number props.ordinal % 2 ^ 32;
  }

  unfoldable pub add_port : Registry → ℕ → Alloc → PortProps → Registry × List Notice
  unfolding port_entry grown
  add_port reg id alloc props = elim props.name [
    | none ↦ (reg, [])
    | some name ↦ elim props.node_id [
      | none ↦ (reg, [])
      | some node_id ↦ elim (grown 32 (length reg.ports) reg.ports_capacity alloc.grow) [
        | none ↦ (reg, [])
        | some capacity ↦
            let e = port_entry id name node_id props in
            if alloc.name
            then (
              record reg { ports = reg.ports ++ e ∷ []; ports_capacity = capacity },
              if reg.port_added_cb then port_added e.node_id ∷ [] else [],
            )
            else (record reg { ports_capacity = capacity }, [])
      ]
    ]
  ]

  -- `pwf_pw_registry_on_global`; `none` for null properties.
  unfoldable pub on_global : Registry → ℕ → Alloc → Option Global → Registry × List Notice
  unfolding add_node add_port
  on_global reg id alloc none = (reg, [])
  on_global reg id alloc (some (node props)) = (add_node reg id alloc props, [])
  on_global reg id alloc (some (port props)) = add_port reg id alloc props
  on_global reg id alloc (some other) = (reg, [])

-- The loops of `pwf_pw_registry_on_global_remove`: the index of the first entry with the id.
index_of : {A : Type 0} → (A → ℕ) → ℕ → List A → Option ℕ
index_of get_id id [] = none
index_of get_id id (e ∷ l) =
    if get_id e == id
    then some 0
    else elim (index_of get_id id l) [ none ↦ none | some i ↦ some (suc i) ]

-- `l[i] = l[--n]`
swap_remove : {A : Type 0} → ℕ → List A → List A
swap_remove i l = elim (get_elem? l (length l - 1)) [
  | none ↦ l
  | some last ↦ take (length l - 1) (set l i last)
]

-- Either loop as a whole.
unfoldable pub drop_id : {A : Type 0} → (A → ℕ) → ℕ → List A → List A
unfolding index_of swap_remove
drop_id get_id id l = elim (index_of get_id id l) [ none ↦ l | some i ↦ swap_remove i l ]

-- `pwf_pw_registry_on_global_remove`
unfoldable pub on_global_remove : Registry → ℕ → Registry × List Notice
unfolding drop_id index_of
on_global_remove reg id =
    let was_node = is_some (index_of (λ (e : NodeEntry). e.id) id reg.nodes) in
    (
      record reg {
        nodes = drop_id (λ e. e.id) id reg.nodes;
        ports = drop_id (λ e. e.id) id reg.ports;
      },
      if was_node && reg.node_removed_cb then node_removed id ∷ [] else [],
    )

-- `pwf_pw_registry_teardown`. The callbacks stay.
unfoldable pub teardown : Registry → Registry
teardown reg = record reg {
  bound = false;
  nodes = [];
  nodes_capacity = 0;
  ports = [];
  ports_capacity = 0;
}

-- The id of the first entry that passes, 0 if none does: the loop of the three lookups.
unfoldable pub first_id : {A : Type 0} → (A → ℕ) → (A → Bool) → List A → ℕ
first_id get_id p [] = 0
first_id get_id p (e ∷ l) = if p e then get_id e else first_id get_id p l

unfoldable pub find_node_by_name : Registry → String → ℕ
unfolding first_id
find_node_by_name reg name = first_id (λ e. e.id) (λ e. str_eq e.name name) reg.nodes

unfoldable pub find_node_by_serial : Registry → ℕ → ℕ
unfolding first_id
find_node_by_serial reg serial =
    if serial == 0 then 0 else first_id (λ e. e.id) (λ e. e.serial == serial) reg.nodes

-- The test of `pwf_pw_registry_list_ports`.
abbrev pub faces : ℕ → SpaDirection → PortEntry → Bool
faces node_id direction e = e.node_id == node_id && same_direction e.direction direction

unfoldable pub find_port : Registry → ℕ → String → SpaDirection → ℕ
unfolding first_id
find_port reg node_id name direction =
    first_id (λ e. e.id) (λ e. faces node_id direction e && str_eq e.name name) reg.ports
