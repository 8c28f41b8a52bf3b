-- ===== src/Filter/Process/Mailbox/Ready.antt =====
-- What an input port for data needs for the mailbox: its push blocks (src/pwf_filter_port.c), which a cycle
-- (src/pwf_filter_process.c) keeps.
use tinypipewire.Common.{ℕ, ◌≤◌, ◌≡◌, Bool, true, false, Option, none, some, List, length, arith}
use tinypipewire.Types.{DataType, event, PwBuffer}
use tinypipewire.Filter.State.{Port, PortDirection, input, output}
use tinypipewire.Filter.Push.Latest.{Apart, FreshBlock}
use tinypipewire.Filter.Process.{acquire_input, take_push, take_graph, settle}
use tinypipewire.Filter.Process.Ownership.{acquire_input-Apart}
use tinypipewire.Filter.Process.Mailbox.{Op, push, cycle, perform}

-- The media type is not that of an event port.
abbrev pub is_data : DataType → Bool
is_data event = false
is_data _ = true

abbrev pub is_in : PortDirection → Bool
is_in input = true
is_in output = false

-- An input port for data, whose blocks lie apart, and are there where they have places.
pub record Ready (port : Port) : Type 0 where
  pub for_data : is_data port.media_type ≡ true
  pub for_input : is_in port.direction ≡ true
  pub apart : Apart port
  pub staging : port.pushed_data ≡ none → port.pushed_capacity ≡ 0
  pub delivering : port.delivered_data ≡ none → port.delivered_capacity ≡ 0

-- A push that is made as the API asks: there are as many bytes as it says, and `realloc` hands out no memory
-- that is in use.
abbrev pub Proper : Port → Op → Type 0
Proper port (push own bytes size pts realloc) =
    ((b : List ℕ) → bytes ≡ some b → size ≤ length b) × FreshBlock port realloc
Proper port (cycle staged dq) = Unit {0}

pub cycle-Ready :
    (port : Port) (staged : Bool) (dq : Option PwBuffer)
    → Ready port
    → Ready (perform port (cycle staged dq)).0
unfolding perform acquire_input take_push take_graph settle
cycle-Ready port staged none r = record {
  for_data = ground arith;
  for_input = ground arith;
  apart =
      acquire_input-Apart staged (record port { current_dmabuf_buf = none }) none
        (record {
          different = r.apart.different;
          held_delivered = r.apart.held_delivered;
          unheld = r.apart.unheld;
        });
  staging = ground arith;
  delivering = ground arith;
}
cycle-Ready port staged (some b) r = record {
  for_data = ground arith;
  for_input = ground arith;
  apart =
      acquire_input-Apart staged (record port { current_dmabuf_buf = none }) (some b)
        (record {
          different = r.apart.different;
          held_delivered = r.apart.held_delivered;
          unheld = r.apart.unheld;
        });
  staging = ground arith;
  delivering = ground arith;
}
