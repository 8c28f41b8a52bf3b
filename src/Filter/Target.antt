-- ===== src/Filter/Target.antt =====
-- Finding what a filter's port is linked to: the targets of src/pwf_filter_port_link.c.
mod Tests
pub mod Lowest
pub mod Parts
use Prim.Native.Char.{Char, code}
use Prim.Native.String
use tinypipewire.Common.{
  ℕ, zero, suc, ◌+◌, Bool, true, false, not, ◌&&◌, ◌||◌, Option, none, some, is_some, List, [], ◌∷◌,
  String, ltb, leb, ◌==◌, if◌then◌else◌,
}
use tinypipewire.Registry.{
  Registry, PortEntry, SpaDirection, find_node_by_name, find_node_by_serial, find_port,
}
use tinypipewire.Registry.Ports.{list_ports}

-- Texts are read as bytes.
unfoldable pub all_digits : String → Bool
all_digits String.[] = true
all_digits (String.◌∷◌ c s) = leb 48 (code c) && leb (code c) 57 && all_digits s

-- `pwf_str_is_all_digits`
unfoldable pub str_is_all_digits : String → Bool
unfolding all_digits
str_is_all_digits String.[] = false
str_is_all_digits (String.◌∷◌ c s) = all_digits (String.◌∷◌ c s)

unfoldable pub text_length : String → ℕ
text_length String.[] = 0
text_length (String.◌∷◌ c s) = suc (text_length s)

-- `strrchr(target, ':')`: what stands before the last colon and after it
unfoldable pub split_last_colon : String → Option (String × String)
split_last_colon String.[] = none
split_last_colon (String.◌∷◌ c s) = elim (split_last_colon s) [
  | none ↦ if code c == 58 then some (String.[], s) else none
  | some (before, after) ↦ some (String.◌∷◌ c before, after)
]

-- The places of `node_part`
abbrev pub node_part_size : ℕ
node_part_size = 256

-- PWF_MAX_TARGET_PORTS
abbrev pub max_target_ports : ℕ
max_target_ports = 64

-- PWF_TARGET_PORT_ATTEMPTS
abbrev pub target_port_attempts : ℕ
target_port_attempts = 10

-- PWF_OWN_PORT_ATTEMPTS
abbrev pub own_port_attempts : ℕ
own_port_attempts = 100

-- The attempts of `pwf_pick_target_port`: `syncs` are the registries that the round-trips leave, up to
-- one that fails.
unfoldable pub pick_attempts : ℕ → ℕ → Registry → List Registry → ℕ
pick_attempts node_id zero reg syncs = 0
pick_attempts node_id (suc attempts) reg syncs =
    elim (list_ports reg node_id SpaDirection.output (some max_target_ports)).1 [
      | [] ↦ elim syncs [ [] ↦ 0 | ◌∷◌ next rest ↦ pick_attempts node_id attempts next rest ]
      | ◌∷◌ first others ↦ first.id
    ]

-- `pwf_pick_target_port`
unfoldable pub pick_target_port : ℕ → Registry → List Registry → ℕ
pick_target_port node_id reg syncs = pick_attempts node_id target_port_attempts reg syncs

-- The attempts of `pwf_resolve_own_port_id`: each finds the filter's node id, if the server has given one,
-- and the registry at that time; the list ends where a round-trip fails.
unfoldable pub own_port_loop : String → ℕ → List (Option ℕ × Registry) → ℕ
own_port_loop name zero views = 0
own_port_loop name (suc attempts) [] = 0
own_port_loop name (suc attempts) ((node_id, reg) ∷ views) =
    let found : ℕ = elim node_id [ none ↦ 0 | some n ↦ find_port reg n name SpaDirection.input ] in
    let rest = own_port_loop name attempts views in if found == 0 then rest else found

-- `pwf_resolve_own_port_id`; `known` is the id that an earlier call found, 0 for none.
unfoldable pub resolve_own_port_id : ℕ → String → List (Option ℕ × Registry) → ℕ
resolve_own_port_id known name views =
    let found = own_port_loop name own_port_attempts views in if known == 0 then found else known

module _ (strtoull : String → ℕ) where
  -- A node by its serial or its name
  unfoldable pub find_node : Registry → String → ℕ
  find_node reg target =
      if str_is_all_digits target
      then find_node_by_serial reg (strtoull target)
      else find_node_by_name reg target

  -- `pwf_resolve_target_node`: the node, 0 for none, and the port part.
  unfoldable pub resolve_target_node : Registry → String → ℕ × Option String
  resolve_target_node reg target =
      let whole = find_node reg target in
      let parts : ℕ × Option String = elim (split_last_colon target) [
        | none ↦ (0, none)
        | some (before, after) ↦
            if text_length before == 0 || text_length after == 0
            then (0, none)
            else if not (ltb (text_length before) node_part_size)
            then (0, none)
            else if find_node reg before == 0
            then (0, none)
            else (find_node reg before, some after)
      ] in
      if whole == 0 then parts else (whole, none)

  -- `pwf_resolve_target`: the node, and the port to link or 0.
  unfoldable pub resolve_target : Registry → List Registry → String → ℕ × ℕ
  resolve_target reg syncs target =
      let node = resolve_target_node reg target in
      if node.0 == 0 then (0, 0) else elim node.1 [
        | none ↦ (node.0, pick_target_port node.0 reg syncs)
        | some name ↦
            let port = find_port reg node.0 name SpaDirection.output in
            if port == 0 then (0, 0) else (node.0, port)
      ]
