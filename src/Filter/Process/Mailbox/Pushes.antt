-- ===== src/Filter/Process/Mailbox/Pushes.antt =====
-- A push to an input port for data (src/pwf_filter_port.c), on the mailbox that the port is.
use tinypipewire.Common.{
  ℕ, ◌≤◌, ◌≡◌, ◌≢◌, ◌⊎◌, inl, inr, refl, Bool, true, false, not, ◌&&◌, ltb, Option, none, some,
  is_some, List, [], take, drop, take-append-take, length, arith, Option-cases, Bool-cases, ap, ◌∙◌,
}
use tinypipewire.Common.Int.{ℤ}
use tinypipewire.Types.{ok}
use tinypipewire.Filter.State.{Port, DataRef, block, graph}
use tinypipewire.Filter.Push.{push_port_data, grow_push, stage_push, copy_in, write_block}
use tinypipewire.Filter.Push.Latest.{Apart, FreshBlock, push_port_data-Spares}
use tinypipewire.Filter.Process.Mailbox.{
  Datum, Mailbox, bytes_of, push, perform, mailbox, Allows, deref, post,
}
use tinypipewire.Filter.Process.Mailbox.Ready.{Ready, Proper}
use tinypipewire.Filter.Process.Mailbox.Stages.{push_port_data-Staged}

-- What copying into the push block leaves in it.
copied :
    (port : Port) (b : List ℕ) (size a : ℕ)
    → size ≤ length b
    → port.pushed_data ≡ some a
    → let next = copy_in port b size in
      (next.pushed_data ≡ some a) × (take size (next.blocks a) ≡ take size b)
unfolding copy_in
copied port b size a fits e =
    ground (arith, take-append-take size b (drop size (port.blocks a)) fits)

-- Room for a push, and the block that has it.
grown_room :
    (port : Port) (size : ℕ) (realloc : Option ℕ)
    → (port.pushed_data ≡ none → port.pushed_capacity ≡ 0)
    → ((grow_push port size realloc ≡ none) × (realloc ≡ none))
      ⊎ ((roomy : Port) × (grow_push port size realloc ≡ some roomy)
          × (ltb 0 size ≡ true → (a : ℕ) × (roomy.pushed_data ≡ some a)))
unfolding grow_push
grown_room port size realloc s = elim (Bool-cases (ltb port.pushed_capacity size)) [
  | inr fits ↦ elim (Option-cases port.pushed_data) [
    | inl e ↦ inr (port, ground arith, λ h. absurd (ground (arith, s e)))
    | inr (a, e) ↦ inr (port, ground arith, λ h. (a, e))
  ]
  | inl grows ↦ elim (Option-cases realloc) [
    | inl e ↦ inl (ground arith)
    | inr (a, e) ↦ inr (
      record port {
        blocks =
            write_block port.blocks a
              (elim port.pushed_data [ none ↦ [] | some old ↦ port.blocks old ]);
        pushed_data = some a;
        pushed_capacity = size;
      },
      ground arith,
      λ h. (a, refl),
    )
  ]
]

-- What is staged.
abbrev waiting_in : Port → Option Datum
waiting_in port = (mailbox port).waiting

filled_waiting :
    (roomy port : Port) (bytes : Option (List ℕ)) (size : ℕ) (pts : ℤ)
    → (ltb 0 size && not (is_some bytes)) ≡ false
    → ((b : List ℕ) → bytes ≡ some b → size ≤ length b)
    → (ltb 0 size ≡ true → (a : ℕ) × (roomy.pushed_data ≡ some a))
    → let r = stage_push (some roomy) port bytes size pts in
      (r.1 ≡ ok) × (waiting_in r.0 ≡ some (take size (bytes_of bytes), pts))
unfolding stage_push
filled_waiting roomy port bytes size pts there fits room = elim (Bool-cases (ltb 0 size)) [
  | inr empty ↦
      let zero_size : size ≡ 0 = ground arith in
      elim (Option-cases roomy.pushed_data) [ inl e ↦ ground arith | inr (a, e) ↦ ground arith ]
  | inl some_bytes ↦ elim (Option-cases bytes) [
    | inl e ↦ absurd (ground arith)
    | inr (b, e) ↦
        let (a, block_a) = room some_bytes in
        ground (arith, copied roomy b size a (fits b e) block_a)
  ]
]

-- Whether a push finds all that it needs: the port is its filter's, there is data, and there is memory.
abbrev provided : Bool → Option (List ℕ) → Option ℕ → Bool
provided own bytes realloc = own && is_some bytes && is_some realloc

push-posts :
    (port : Port) (own : Bool) (bytes : Option (List ℕ)) (size : ℕ) (pts : ℤ) (realloc : Option ℕ)
    → Ready port
    → Proper port (push own bytes size pts realloc)
    → let r = push_port_data own port bytes size pts realloc in
      ((r.1 ≡ ok) × (waiting_in r.0 ≡ some (take size (bytes_of bytes), pts)))
      ⊎ ((r.1 ≢ ok) × ((provided own bytes realloc ≡ false) × (r.0 ≡ port)))
unfolding push_port_data
push-posts port own bytes size pts realloc r p =
    elim (Bool-cases (own && not (ltb 0 size && not (is_some bytes)))) [
      | inr refused ↦ inr (ground (arith, r.for_data, r.for_input))
      | inl taken ↦
          let there : (ltb 0 size && not (is_some bytes)) ≡ false = ground arith in
          elim (grown_room port size realloc r.staging) [
            | inl (failed, no_memory_left) ↦ inr (
                unfold stage_push in
                ground (arith, r.for_data, r.for_input, failed, no_memory_left))
            | inr (roomy, grew, room) ↦ inl (
                ground (
                  arith,
                  r.for_data,
                  r.for_input,
                  grew,
                  filled_waiting roomy port bytes size pts there p.0 room,
                ))
          ]
    ]

mailbox_ext :
    (m n : Mailbox)
    → m.hold ≡ n.hold
    → m.dmabuf ≡ n.dmabuf
    → m.waiting ≡ n.waiting
    → m.kept ≡ n.kept
    → m ≡ n
mailbox_ext m n h d w k = cc

deref_at :
    (p q : Port) (o held : Option DataRef)
    → o ≡ held
    → ((a : ℕ) → held ≡ some (block a) → p.blocks a ≡ q.blocks a)
    → deref p o ≡ deref q held
deref_at p q o none e same = ap (deref p) e
deref_at p q o (some (graph memory)) e same = ap (deref p) e
deref_at p q o (some (block a)) e same = ap (deref p) e ∙ same a refl

push-kept :
    (port : Port) (own : Bool) (bytes : Option (List ℕ)) (size : ℕ) (pts : ℤ) (realloc : Option ℕ)
    → Apart port
    → FreshBlock port realloc
    → (mailbox (push_port_data own port bytes size pts realloc).0).kept ≡ (mailbox port).kept
push-kept port own bytes size pts realloc v fresh =
    let s = push_port_data-Staged port own bytes size pts realloc in
    let next = (push_port_data own port bytes size pts realloc).0 in
    let hold = ap (λ (p : Port). p.hold_enabled && p.has_held) s.only in
    let held = ap (λ (p : Port). p.held_data) s.only in
    let bytes_kept : deref next next.held_data ≡ deref port port.held_data =
      deref_at next port next.held_data port.held_data held (λ a e.
        (push_port_data-Spares own port bytes size pts realloc a v fresh
          (v.held_delivered a e)).0) in
    let size_kept = ap (λ (p : Port). p.held_size) s.only in
    let pts_kept = ap (λ (p : Port). p.held_pts) s.only in
    rw (hold, size_kept, pts_kept, bytes_kept) refl

pub push-Allows :
    (port : Port) (own : Bool) (bytes : Option (List ℕ)) (size : ℕ) (pts : ℤ) (realloc : Option ℕ)
    → Ready port
    → Proper port (push own bytes size pts realloc)
    → let (next, report) = perform port (push own bytes size pts realloc) in
      Allows (mailbox port) (push own bytes size pts realloc) report (mailbox next)
unfolding perform
push-Allows port own bytes size pts realloc r p =
    let s = push_port_data-Staged port own bytes size pts realloc in
    let next = (push_port_data own port bytes size pts realloc).0 in
    elim (push-posts port own bytes size pts realloc r p) [
      | inr (refused, (why, same)) ↦ inr (refused, why, ap mailbox same)
      | inl (taken, waits) ↦ inl (
        taken,
        mailbox_ext (mailbox next) (post (take size (bytes_of bytes), pts) (mailbox port))
            (ap (λ (p : Port). p.hold_enabled) s.only) (ap (λ (p : Port). p.use_dmabuf) s.only)
            waits (push-kept port own bytes size pts realloc r.apart p.1),
      )
    ]
