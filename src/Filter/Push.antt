-- ===== src/Filter/Push.antt =====
-- `pwf_filter_push_port_data` of src/pwf_filter_port.c. It runs under the push lock, and so does the
-- swap in the cycle, so each is one step.
pub mod Latest
use tinypipewire.Common.{
  ℕ, ◌+◌, ◌-◌, Bool, true, false, not, ◌&&◌, ◌||◌, Option, none, some, is_some, List, [], ◌∷◌, ◌++◌,
  take, drop, ltb, ◌==◌, if◌then◌else◌,
}
use tinypipewire.Common.Int.{ℤ}
use tinypipewire.Types.{DataType, event, Code, ok, invalid_arg, no_memory}
use tinypipewire.Filter.State.{Port, PortDirection, input, output}

-- The memory with other bytes at one address.
abbrev pub write_block : (ℕ → List ℕ) → ℕ → List ℕ → ℕ → List ℕ
write_block blocks address bytes a = if a == address then bytes else blocks a

-- `memcpy(port->pushed_data, data, size)`
unfoldable pub copy_in : Port → List ℕ → ℕ → Port
copy_in port bytes size = elim port.pushed_data [
  | none ↦ port
  | some address ↦ record port {
    blocks = write_block port.blocks address (take size bytes ++ drop size (port.blocks address));
  }
]

-- The `realloc` step: what it returns where it is called. The new block starts with the old bytes.
unfoldable pub grow_push : Port → ℕ → Option ℕ → Option Port
grow_push port size realloc =
    if not (ltb port.pushed_capacity size) then some port else elim realloc [
      | none ↦ none
      | some address ↦ some (record port {
        blocks =
            write_block port.blocks address
              (elim port.pushed_data [ none ↦ [] | some old ↦ port.blocks old ]);
        pushed_data = some address;
        pushed_capacity = size;
      })
    ]

-- The last part, under the lock.
unfoldable pub stage_push : Option Port → Port → Option (List ℕ) → ℕ → ℤ → Port × Code
unfolding copy_in
stage_push none port bytes size pts = (port, no_memory)
stage_push (some roomy) port bytes size pts =
    let filled : Port =
      if ltb 0 size then (elim bytes [ none ↦ roomy | some b ↦ copy_in roomy b size ]) else roomy in
    (record filled { pushed_size = size; pushed_pts = pts; pushed_pending = true }, ok)

-- `bytes` is what `data` leads to. `own` is `port->filter == filter`, with neither null.
unfoldable pub push_port_data : Bool → Port → Option (List ℕ) → ℕ → ℤ → Option ℕ → Port × Code
push_port_data own port bytes size pts realloc =
    let staged = stage_push (grow_push port size realloc) port bytes size pts in
    let accepted : Port × Code = elim port.media_type [
      | event ↦ (port, invalid_arg)
      | _ ↦ if ltb 0 size && not (is_some bytes) then (port, invalid_arg) else staged
    ] in
    elim port.direction [
      | input ↦ if own then accepted else (port, invalid_arg)
      | output ↦ (port, invalid_arg)
    ]
