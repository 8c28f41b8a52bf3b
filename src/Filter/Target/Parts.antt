-- ===== src/Filter/Target/Parts.antt =====
-- A target that names a node and a port (src/pwf_filter_port_link.c).
use Prim.Native.Char.{Char, code}
use tinypipewire.Common.{ℕ, ◌<◌, ◌≡◌, ◌≢◌, none, some, String, arith}
use tinypipewire.Registry.{Registry}
use tinypipewire.Filter.Target.{
  text_length, split_last_colon, find_node, resolve_target_node, node_part_size,
}

-- `node:port`, with the colon's character
abbrev pub joined : Char → String → String → String
joined colon String.[] port = String.◌∷◌ colon port
joined colon (String.◌∷◌ c node) port = String.◌∷◌ c (joined colon node port)

split-joined :
    (colon : Char) (node port : String)
    → code colon ≡ 58
    → split_last_colon port ≡ none
    → split_last_colon (joined colon node port) ≡ some (node, port)
unfolding split_last_colon
split-joined colon String.[] port c p = ground (arith, c, p)
split-joined colon (String.◌∷◌ d node) port c p = ground (arith, split-joined colon node port c p)

-- A target of a node's name, a colon and a port's name without one leads to that node and that port, if the
-- node's name is not longer than the code's buffer holds and no node has the whole target as its name.
pub resolve_target_node-joined :
    (strtoull : String → ℕ) (reg : Registry) (colon : Char) (node port : String)
    → code colon ≡ 58
    → split_last_colon port ≡ none
    → 0 < text_length node
    → text_length node < node_part_size
    → 0 < text_length port
    → find_node strtoull reg node ≢ 0
    → find_node strtoull reg (joined colon node port) ≡ 0
    → resolve_target_node strtoull reg (joined colon node port)
      ≡ (find_node strtoull reg node, some port)
unfolding resolve_target_node
resolve_target_node-joined strtoull reg colon node port c p some_node fits some_port found whole =
    ground (arith, split-joined colon node port c p)
