-- ===== src/Loopback/Fifo.antt =====
-- That the ring of src/utils/pwf_stream_loopback.c is a queue for its two threads.
use tinypipewire.Common.{
  ℕ, ◌+◌, ◌-◌, ◌%◌, ◌^◌, ◌<◌, ◌≤◌, ◌≡◌, refl, ◌∙◌, ap, ap₂, sym, subst, List, [], ◌∷◌, ◌++◌,
  append-nil, append_assoc, ltb, min, length, length-take, take, if◌then◌else◌, arith,
}
use tinypipewire.Loopback.{LoopbackRing, copy_into, copy_out, ring_write, ring_read}
use tinypipewire.Loopback.Slots.{copy_out-before, copy_out-into, copy_out-append}

-- The bytes that are in the ring.
abbrev pub contents : LoopbackRing → List ℕ
contents ring = copy_out ring.capacity ring.data_at ring.read_pos (ring.write_pos - ring.read_pos)

-- The free space that the writer sees, and what it takes of its bytes.
abbrev pub room : LoopbackRing → ℕ → ℕ
room ring seen = ring.capacity - (ring.write_pos - seen)

abbrev pub accepted : LoopbackRing → ℕ → List ℕ → List ℕ
accepted ring seen src = take (min (length src) (room ring seen)) src

-- The ring with the positions that its threads have seen last: neither position has passed the other, nor what
-- the other thread has seen of it.
pub record Kept (written_seen read_seen : ℕ) (ring : LoopbackRing) : Type 0 where
  pub behind : written_seen ≤ ring.read_pos
  pub within : ring.write_pos ≤ written_seen + ring.capacity
  pub ahead : ring.read_pos ≤ read_seen
  pub known : read_seen ≤ ring.write_pos
  pub unwrapped : ring.write_pos < 2 ^ 64
  pub sized : ring.capacity < 2 ^ 64

module _ (lw lr : ℕ) (ring : LoopbackRing) (k : Kept lw lr ring) (seen : ℕ) where
  module _ (src : List ℕ) (later : lw ≤ seen) (past : seen ≤ ring.read_pos)
      (small : ring.write_pos + length src < 2 ^ 64) where
    abbrev taken : ℕ
    taken = min (length src) (room ring seen)

    write-fields :
        let next = ring_write ring seen src (length src) in
        (next.data_at
          ≡ copy_into ring.capacity ring.data_at ring.write_pos (accepted ring seen src))
        × (next.write_pos ≡ ring.write_pos + taken)
        × (next.read_pos ≡ ring.read_pos)
        × (next.capacity ≡ ring.capacity)
    unfolding ring_write
    write-fields =
        let used : (ring.write_pos + 2 ^ 64 - seen) % 2 ^ 64 ≡ ring.write_pos - seen =
          omega (arith, k.behind, k.within, k.ahead, k.known, k.unwrapped) in
        let free : (ring.capacity + 2 ^ 64 - (ring.write_pos - seen)) % 2 ^ 64 ≡ room ring seen =
          omega (arith, k.within, k.sized, k.unwrapped) in
        let kept : (if ltb (room ring seen) (length src) then room ring seen else length src)
            ≡ taken =
          ground arith in
        let moved : (ring.write_pos + taken) % 2 ^ 64 ≡ ring.write_pos + taken = omega arith in
        (rw (used, free, kept) refl, rw (used, free, kept) moved, refl, refl)

    pub write-Kept : Kept seen lr (ring_write ring seen src (length src))
    write-Kept =
        let (d, w, r, c) = write-fields in
        record {
          behind = ground (arith, past, r);
          within = ground (arith, w, c, k.behind, k.within, k.ahead, k.known, later, past);
          ahead = ground (arith, r, k.ahead);
          known = ground (arith, w, k.known);
          unwrapped = ground (arith, w, small);
          sized = ground (arith, c, k.sized);
        }

    length-accepted : length (accepted ring seen src) ≡ taken
    length-accepted = length-take taken src ∙ omega arith

    -- What is in the ring after a write: what was, and the bytes that are taken.
    pub write-contents :
        contents (ring_write ring seen src (length src)) ≡ contents ring ++ accepted ring seen src
    write-contents =
        let (d, w, r, c) = write-fields in
        let size = ring.capacity in
        let bytes = accepted ring seen src in
        let before = ring.write_pos - ring.read_pos in
        let filled = copy_into size ring.data_at ring.write_pos bytes in
        let reads : contents (ring_write ring seen src (length src))
            ≡ copy_out size filled ring.read_pos (before + length bytes) =
          let count : ring.write_pos + taken - ring.read_pos ≡ before + length bytes =
            omega (arith, length-accepted, k.ahead, k.known) in
          rw (d, w, r, c) (ap (λ n. copy_out size filled ring.read_pos n) count) in
        let at_end : ring.read_pos + before ≡ ring.write_pos = omega (arith, k.ahead, k.known) in
        reads
        ∙ copy_out-append size filled ring.read_pos before (length bytes)
        ∙ ap₂ (λ x y. x ++ y)
            (copy_out-before size ring.data_at ring.read_pos before ring.write_pos bytes
              (omega (arith, at_end))
              (omega (arith, length-accepted, k.within, past, k.behind, later))
              (omega (arith, length-accepted)))
            (ap (λ i. copy_out size filled i (length bytes)) at_end
              ∙ copy_out-into size ring.data_at ring.write_pos bytes
                  (omega (arith, length-accepted)) (omega (arith, length-accepted)))

  module _ (len : ℕ) (later : lr ≤ seen) (past : seen ≤ ring.write_pos) where
    abbrev got : ℕ
    got = min len (seen - ring.read_pos)

    read-fields :
        let (out, next) = ring_read ring seen len in
        (out ≡ copy_out ring.capacity ring.data_at ring.read_pos got)
        × (next ≡ record ring { read_pos = ring.read_pos + got })
    unfolding ring_read
    read-fields =
        let available : (seen + 2 ^ 64 - ring.read_pos) % 2 ^ 64 ≡ seen - ring.read_pos =
          omega (arith, k.ahead, k.unwrapped) in
        let read : (if ltb (seen - ring.read_pos) len then seen - ring.read_pos else len) ≡ got =
          ground arith in
        let moved : (ring.read_pos + got) % 2 ^ 64 ≡ ring.read_pos + got =
          omega (arith, k.ahead, k.unwrapped) in
        (
          rw (available, read) refl,
          rw (available, read) (ap (λ p. record ring { read_pos = p }) moved),
        )

    pub read-Kept : Kept lw seen (ring_read ring seen len).1
    read-Kept =
        subst (λ r. Kept lw seen r) (sym read-fields.1)
          (record {
            behind = omega (arith, k.behind);
            within = k.within;
            ahead = omega (arith, k.ahead);
            known = past;
            unwrapped = k.unwrapped;
            sized = k.sized;
          })

    -- What is read stood first in the ring, and is not in it any more.
    pub read-contents :
        contents ring ≡ (ring_read ring seen len).0 ++ contents (ring_read ring seen len).1
    read-contents =
        let size = ring.capacity in
        let count : ring.write_pos - ring.read_pos
            ≡ got + (ring.write_pos - (ring.read_pos + got)) =
          omega (arith, k.ahead) in
        ap (λ n. copy_out size ring.data_at ring.read_pos n) count
        ∙ copy_out-append size ring.data_at ring.read_pos got
            (ring.write_pos - (ring.read_pos + got))
        ∙ ap₂ (λ x r. x ++ contents r) (sym read-fields.0) (sym read-fields.1)

-- What the two threads do, each with the position of the other that it sees.
pub data RingOp : Type 0 where
  write : (seen : ℕ) → List ℕ → RingOp
  read : (seen : ℕ) → (len : ℕ) → RingOp

abbrev pub step : LoopbackRing → RingOp → LoopbackRing
step ring (write seen src) = ring_write ring seen src (length src)
step ring (read seen len) = (ring_read ring seen len).1

pub run_ring : LoopbackRing → List RingOp → LoopbackRing
run_ring ring [] = ring
run_ring ring (op ∷ ops) = run_ring (step ring op) ops

-- The bytes that are taken into the ring, and those that are read from it, in order.
pub bytes_in : LoopbackRing → List RingOp → List ℕ
bytes_in ring [] = []
bytes_in ring (write seen src ∷ ops) =
    accepted ring seen src ++ bytes_in (step ring (write seen src)) ops
bytes_in ring (read seen len ∷ ops) = bytes_in (step ring (read seen len)) ops

pub bytes_out : LoopbackRing → List RingOp → List ℕ
bytes_out ring [] = []
bytes_out ring (write seen src ∷ ops) = bytes_out (step ring (write seen src)) ops
bytes_out ring (read seen len ∷ ops) =
    (ring_read ring seen len).0 ++ bytes_out (step ring (read seen len)) ops

-- What the threads can see: of the other's position a value that it has had, and never an older one than
-- before; and the positions do not wrap.
abbrev pub Coherent : ℕ → ℕ → LoopbackRing → List RingOp → Type 0
Coherent lw lr ring [] = Unit {0}
Coherent lw lr ring (write seen src ∷ ops) =
    (lw ≤ seen)
    × (seen ≤ ring.read_pos)
    × (ring.write_pos + length src < 2 ^ 64)
    × Coherent seen lr (step ring (write seen src)) ops
Coherent lw lr ring (read seen len ∷ ops) =
    (lr ≤ seen) × (seen ≤ ring.write_pos) × Coherent lw seen (step ring (read seen len)) ops

-- The ring is a queue, for every order in which the two threads come and however old the positions are that
-- they see of each other: the bytes that are read, and then those that are left in it, are those that were in
-- it and then those that were taken, in their order, none twice and none lost. What a thread sees is a
-- position that the other has had, never an older one than before, and no position reaches 2^64.
pub run_ring-fifo :
    (ops : List RingOp) (lw lr : ℕ) (ring : LoopbackRing)
    → Kept lw lr ring
    → Coherent lw lr ring ops
    → contents ring ++ bytes_in ring ops ≡ bytes_out ring ops ++ contents (run_ring ring ops)
unfolding run_ring bytes_in bytes_out
run_ring-fifo [] lw lr ring k c = append-nil (contents ring)
run_ring-fifo (write seen src ∷ ops) lw lr ring k (later, past, small, c) =
    let next = step ring (write seen src) in
    sym (append_assoc (contents ring) (accepted ring seen src) (bytes_in next ops))
    ∙ ap (λ l. l ++ bytes_in next ops) (sym (write-contents lw lr ring k seen src later past small))
    ∙ run_ring-fifo ops seen lr next (write-Kept lw lr ring k seen src later past small) c
run_ring-fifo (read seen len ∷ ops) lw lr ring k (later, past, c) =
    let next = step ring (read seen len) in
    let out = (ring_read ring seen len).0 in
    ap (λ l. l ++ bytes_in next ops) (read-contents lw lr ring k seen len later past)
    ∙ append_assoc out (contents next) (bytes_in next ops)
    ∙ ap (λ l. out ++ l)
        (run_ring-fifo ops lw seen next (read-Kept lw lr ring k seen len later past) c)
    ∙ sym (append_assoc out (bytes_out next ops) (contents (run_ring next ops)))
