-- ===== src/Loopback/Tests.antt =====
-- The theorem on the ring at a ring of four bytes that wraps round.
use tinypipewire.Common.{◌≡◌, List, [], ◌∷◌, ◌++◌, arith}
use tinypipewire.Loopback.{LoopbackRing}
use tinypipewire.Loopback.Fifo.{
  contents, Kept, RingOp, write, read, run_ring, bytes_in, bytes_out, run_ring-fifo,
}

abbrev small_ring : LoopbackRing
small_ring = record { data_at = λ i. 0; capacity = 4; write_pos = 0; read_pos = 0; dropped = 0 }

small_ring-Kept : Kept 0 0 small_ring
small_ring-Kept = record {
  behind = omega arith;
  within = omega arith;
  ahead = omega arith;
  known = omega arith;
  unwrapped = omega arith;
  sized = omega arith;
}

-- The second write does not see yet that two bytes have been read, and has one byte too many.
abbrev four_steps : List RingOp
four_steps = write 0 (1 ∷ 2 ∷ 3 ∷ []) ∷ read 3 2 ∷ write 0 (4 ∷ 5 ∷ []) ∷ read 4 9 ∷ []

run_ring-fifo_example :
    contents small_ring ++ bytes_in small_ring four_steps
    ≡ bytes_out small_ring four_steps ++ contents (run_ring small_ring four_steps)
unfolding tinypipewire.Loopback.ring_write tinypipewire.Loopback.ring_read
run_ring-fifo_example = run_ring-fifo four_steps 0 0 small_ring small_ring-Kept (
  omega arith,
  omega arith,
  omega arith,
  (
    omega arith,
    omega arith,
    (omega arith, omega arith, omega arith, (omega arith, omega arith, tt)),
  ),
)
