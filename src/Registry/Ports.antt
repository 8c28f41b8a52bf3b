-- ===== src/Registry/Ports.antt =====
-- `pwf_pw_registry_list_ports`: a node's ports of one direction, sorted as they are found.
use tinypipewire.Common.{
  ℕ, zero, suc, ◌+◌, Option, none, some, List, [], ◌∷◌, ◌++◌, length, get_elem?, set, ltb,
  if◌then◌else◌,
}
use tinypipewire.Registry.{Registry, PortEntry, SpaDirection, faces}

-- The inner `while` and the write after it: from place `at` down, entries of a higher ordinal move up
-- by one, and the port goes into the place that is left.
unfoldable pub sift : PortEntry → ℕ → List PortEntry → List PortEntry
sift e zero out = set out 0 e
sift e (suc at) out = elim (get_elem? out at) [
  | none ↦ set out (suc at) e
  | some before ↦
      let rest = sift e at (set out (suc at) before) in
      if ltb e.ordinal before.ordinal then rest else set out (suc at) e
]

-- The places of `out` written so far, with the next one appended: it is written before it is read.
unfoldable pub insert_port : PortEntry → List PortEntry → List PortEntry
unfolding sift
insert_port e out = sift e (length out) (out ++ e ∷ [])

-- What one port that passes the test does to the array. `max` is `none` where the caller passes no
-- array, and `found` counts the port itself.
store_port : Option ℕ → ℕ → PortEntry → List PortEntry → List PortEntry
unfolding insert_port
store_port none found e out = out
store_port (some max) found e out = if ltb max found then out else insert_port e out

-- The loop over the cache: the count so far and the places written.
unfoldable pub list_loop :
    ℕ → SpaDirection → Option ℕ → ℕ → List PortEntry → List PortEntry → ℕ × List PortEntry
unfolding store_port
list_loop node_id direction max found out [] = (found, out)
list_loop node_id direction max found out (e ∷ ports) =
    list_loop node_id direction max (if faces node_id direction e then found + 1 else found)
      (if faces node_id direction e then store_port max (found + 1) e out else out) ports

-- The count and the array's written places.
unfoldable pub list_ports : Registry → ℕ → SpaDirection → Option ℕ → ℕ × List PortEntry
unfolding list_loop
list_ports reg node_id direction max = list_loop node_id direction max 0 [] reg.ports
