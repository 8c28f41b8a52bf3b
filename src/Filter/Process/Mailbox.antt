-- ===== src/Filter/Process/Mailbox.antt =====
-- What pushing to an input port for data and running its cycles (src/pwf_filter_port.c and
-- src/pwf_filter_process.c) mean to the application: a mailbox for one item, with or without hold.
mod Tests
pub mod Ready
pub mod Collects
pub mod Stages
pub mod Pushes
pub mod Refines
use tinypipewire.Common.{
  ℕ, ◌+◌, ◌≤◌, ◌≡◌, ◌≢◌, ◌⊎◌, Bool, true, false, not, ◌&&◌, ◌||◌, ◌==◌, Option, none, some, is_some,
  List, [], ◌∷◌, take, length, if◌then◌else◌,
}
use tinypipewire.Common.Int.{ℤ, negsuc}
use tinypipewire.Types.{Code, ok, PwBuffer}
use tinypipewire.Dmabuf.{dmabuf_buffer_present}
use tinypipewire.Filter.State.{Port, PortBuffer, DataRef, block, graph}
use tinypipewire.Filter.Push.{push_port_data}
use tinypipewire.Filter.Process.{acquire_input, buffer_pts, chunk_size, Acquired}

-- Bytes with their timestamp.
abbrev pub Datum : Type 0
Datum = List ℕ × ℤ

-- Nothing, as a port shows it.
abbrev pub nothing : Datum
nothing = ([], negsuc 0)

abbrev pub bytes_of : Option (List ℕ) → List ℕ
bytes_of none = []
bytes_of (some bytes) = bytes

-- The mailbox: whether it keeps what it has shown, whether the graph gives DMABUF memory, which has no bytes
-- here, the item that waits, and the one that is kept.
pub record Mailbox : Type 0 where
  pub hold : Bool
  pub dmabuf : Bool
  pub waiting : Option Datum
  pub kept : Datum

-- A new item takes the place of the one that waits.
abbrev pub post : Datum → Mailbox → Mailbox
post d m = record m { waiting = some d }

-- An item is shown as new, and kept with hold.
abbrev pub show_new : Datum → Mailbox → Mailbox × Datum × Bool
show_new d m = (if m.hold then record m { kept = d } else m, d, true)

-- A cycle shows the item that waits, if it may look, else what the graph has, else what is kept.
abbrev pub collect : Bool → Option Datum → Mailbox → Mailbox × Datum × Bool
collect look from_graph m =
    let from_graph_or_kept : Mailbox × Datum × Bool = elim from_graph [
      | none ↦ (m, m.kept, false)
      | some d ↦ show_new d m
    ] in
    elim m.waiting [
      | none ↦ from_graph_or_kept
      | some d ↦ if look then show_new d (record m { waiting = none }) else from_graph_or_kept
    ]

-- What a dequeued buffer has for the port.
abbrev pub graph_datum : Bool → Option PwBuffer → Option Datum
graph_datum dmabuf none = none
graph_datum dmabuf (some b) =
    let d = b.buffer.datas 0 in
    if b.buffer.n_datas == 0
    then none
    else if dmabuf
    then (if dmabuf_buffer_present (some b.buffer) then some ([], buffer_pts b) else none)
    else (if is_some d.mapped
        then some (take (chunk_size d) (bytes_of d.mapped), buffer_pts b)
        else none)

-- What is done with a port: a push, of what `data` leads to and with what `realloc` would return, or the first
-- part of a cycle, with whether the push lock is got and what the dequeue would give.
pub data Op : Type 0 where
  push : (own : Bool) → Option (List ℕ) → (size : ℕ) → ℤ → (realloc : Option ℕ) → Op
  cycle : (staged : Bool) → Option PwBuffer → Op

-- What comes of it: the push's code, or what the callback is shown and whether that is fresh.
pub data Report : Type 0 where
  told : Code → Report
  showed : Datum → Bool → Report

-- The bytes behind a data pointer.
abbrev pub deref : Port → Option DataRef → List ℕ
deref port none = []
deref port (some (block a)) = port.blocks a
deref port (some (graph bytes)) = bytes

-- What the callback can read in a buffer.
abbrev pub read : Port → PortBuffer → Datum
read port buffer = (take buffer.size (deref port buffer.contents), buffer.pts)

-- One operation on a port.
unfoldable pub perform : Port → Op → Port × Report
perform port (push own bytes size pts realloc) =
    let (next, code) = push_port_data own port bytes size pts realloc in (next, told code)
perform port (cycle staged dq) =
    let a = acquire_input staged (record port { current_dmabuf_buf = none }) dq in
    (a.port, showed (read a.port a.buffer) a.buffer.fresh)

-- The mailbox that a port is.
abbrev pub mailbox : Port → Mailbox
mailbox port = record {
  hold = port.hold_enabled;
  dmabuf = port.use_dmabuf;
  waiting =
      if port.pushed_pending
      then some (
        take port.pushed_size (elim port.pushed_data [ none ↦ [] | some a ↦ port.blocks a ]),
        port.pushed_pts,
      )
      else none;
  kept =
      if port.hold_enabled && port.has_held
      then (take port.held_size (deref port port.held_data), port.held_pts)
      else nothing;
}

-- What a mailbox may do: a push is taken and posted, or it is refused for a reason and nothing changes; a
-- cycle collects.
abbrev pub Allows : Mailbox → Op → Report → Mailbox → Type 0
Allows m (push own bytes size pts realloc) (told code) next =
    ((code ≡ ok) × (next ≡ post (take size (bytes_of bytes), pts) m))
    ⊎ ((code ≢ ok) × ((own && is_some bytes && is_some realloc) ≡ false) × (next ≡ m))
Allows m (cycle staged dq) (showed d fresh) next =
    (next, d, fresh) ≡ collect staged (graph_datum m.dmabuf dq) m
Allows m (push own bytes size pts realloc) (showed d fresh) next = ⊥
Allows m (cycle staged dq) (told code) next = ⊥
