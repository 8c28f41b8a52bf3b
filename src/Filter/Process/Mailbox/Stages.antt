-- ===== src/Filter/Process/Mailbox/Stages.antt =====
-- What a push (src/pwf_filter_port.c) leaves as it was.
use tinypipewire.Common.{
  ℕ, ◌≡◌, ◌⊎◌, inl, inr, refl, Bool, true, false, ltb, Option, none, some, List, [], if◌then◌else◌,
  arith, Option-cases, Bool-cases, ap, ◌∙◌, sym, subst,
}
use tinypipewire.Common.Int.{ℤ}
use tinypipewire.Filter.State.{Port}
use tinypipewire.Filter.Push.{push_port_data, grow_push, stage_push, copy_in, write_block}
use tinypipewire.Filter.Push.Latest.{Apart, FreshBlock}
use tinypipewire.Filter.Process.Mailbox.{push, perform}
use tinypipewire.Filter.Process.Mailbox.Ready.{Ready, is_data, is_in}

-- A step that changes nothing but the push block and what it says of it, and moves the block, if at all, to
-- where `realloc` puts it.
pub record Staged (realloc : Option ℕ) (port next : Port) : Type 0 where
  pub only : next ≡ record port {
    blocks = next.blocks;
    pushed_data = next.pushed_data;
    pushed_size = next.pushed_size;
    pushed_capacity = next.pushed_capacity;
    pushed_pts = next.pushed_pts;
    pushed_pending = next.pushed_pending;
  }
  pub moved :
      ((next.pushed_data ≡ port.pushed_data) × (next.pushed_capacity ≡ port.pushed_capacity))
      ⊎ ((a : ℕ) × (realloc ≡ some a) × (next.pushed_data ≡ some a))

copy_in-pushed :
    (port : Port) (b : List ℕ) (size : ℕ)
    → copy_in port b size ≡ record port { blocks = (copy_in port b size).blocks }
unfolding copy_in
copy_in-pushed port b size = elim (Option-cases port.pushed_data) [
  | inl e ↦ rw e refl
  | inr (a, e) ↦ rw e refl
]

grow_push-Staged :
    (port roomy : Port) (size : ℕ) (realloc : Option ℕ)
    → grow_push port size realloc ≡ some roomy
    → Staged realloc port roomy
unfolding grow_push
grow_push-Staged port roomy size none e =
    let same : roomy ≡ port = ground arith in
    subst (λ p. Staged none port p) (sym same) (record { only = refl; moved = inl (refl, refl) })
grow_push-Staged port roomy size (some x) e = elim (Bool-cases (ltb port.pushed_capacity size)) [
  | inr fits ↦
      let same : roomy ≡ port = ground arith in
      subst (λ p. Staged (some x) port p) (sym same)
        (record { only = refl; moved = inl (refl, refl) })
  | inl grows ↦
      let grown : Port = record port {
        blocks =
            write_block port.blocks x
              (elim port.pushed_data [ none ↦ [] | some old ↦ port.blocks old ]);
        pushed_data = some x;
        pushed_capacity = size;
      } in
      let same : roomy ≡ grown = ground arith in
      subst (λ p. Staged (some x) port p) (sym same)
        (record { only = refl; moved = inr (x, refl, refl) })
]

copy_in-Staged :
    (port roomy : Port) (b : List ℕ) (size : ℕ) (realloc : Option ℕ)
    → Staged realloc port roomy
    → Staged realloc port (copy_in roomy b size)
copy_in-Staged port roomy b size realloc g =
    let blocks = (copy_in roomy b size).blocks in
    subst (λ p. Staged realloc port p) (sym (copy_in-pushed roomy b size))
      (record { only = ap (λ (p : Port). record p { blocks = blocks }) g.only; moved = g.moved })

if-Staged :
    (realloc : Option ℕ) (port : Port) (c : Bool) (p q : Port)
    → Staged realloc port p
    → Staged realloc port q
    → Staged realloc port (if c then p else q)
if-Staged realloc port true p q s t = s
if-Staged realloc port false p q s t = t

stage_push-Staged :
    (port : Port) (room : Option Port) (bytes : Option (List ℕ)) (size : ℕ) (pts : ℤ)
    (realloc : Option ℕ)
    → ((roomy : Port) → room ≡ some roomy → Staged realloc port roomy)
    → Staged realloc port (stage_push room port bytes size pts).0
unfolding stage_push
stage_push-Staged port none bytes size pts realloc s = record {
  only = refl;
  moved = inl (refl, refl);
}
stage_push-Staged port (some roomy) bytes size pts realloc s =
    let g = s roomy refl in
    let copied_in : Port = elim bytes [ none ↦ roomy | some b ↦ copy_in roomy b size ] in
    let c : Staged realloc port copied_in =
      elim bytes
        as (λ o. Staged realloc port (elim o [ none ↦ roomy | some b ↦ copy_in roomy b size ])) [
          | none ↦ g
          | some b ↦ copy_in-Staged port roomy b size realloc g
        ] in
    let f = if-Staged realloc port (ltb 0 size) copied_in roomy c g in
    record {
      only =
          ap
            (λ (p : Port). record p { pushed_size = size; pushed_pts = pts; pushed_pending = true })
            f.only;
      moved = f.moved;
    }

pub push_port_data-Staged :
    (port : Port) (own : Bool) (bytes : Option (List ℕ)) (size : ℕ) (pts : ℤ) (realloc : Option ℕ)
    → Staged realloc port (push_port_data own port bytes size pts realloc).0
unfolding push_port_data
push_port_data-Staged port own bytes size pts realloc =
    let next = (push_port_data own port bytes size pts realloc).0 in
    let staged = (stage_push (grow_push port size realloc) port bytes size pts).0 in
    let done : Staged realloc port staged =
      stage_push-Staged port (grow_push port size realloc) bytes size pts realloc
        (λ roomy e. grow_push-Staged port roomy size realloc e) in
    let same : (next ≡ port) ⊎ (next ≡ staged) = ground arith in
    elim same [
      | inl e ↦
          subst (λ p. Staged realloc port p) (sym e)
            (record { only = refl; moved = inl (refl, refl) })
      | inr e ↦ subst (λ p. Staged realloc port p) (sym e) done
    ]

push-Apart :
    (port : Port) (own : Bool) (bytes : Option (List ℕ)) (size : ℕ) (pts : ℤ) (realloc : Option ℕ)
    → Apart port
    → FreshBlock port realloc
    → Apart (push_port_data own port bytes size pts realloc).0
push-Apart port own bytes size pts realloc v fresh =
    let s = push_port_data-Staged port own bytes size pts realloc in
    let delivered = ap (λ (p : Port). p.delivered_data) s.only in
    let held = ap (λ (p : Port). p.held_data) s.only in
    let hold = ap (λ (p : Port). p.hold_enabled) s.only in
    record {
      different = λ a d p q. elim s.moved [
        | inl (same, c) ↦ v.different a d (sym same ∙ p) (sym delivered ∙ q)
        | inr (x, e, moved) ↦
            let away = subst (λ o. FreshBlock port o) e fresh d (sym delivered ∙ q) in
            let at_x : a ≡ x = ground (arith, p, moved) in λ same. away (sym at_x ∙ same)
      ];
      held_delivered = λ a p. delivered ∙ v.held_delivered a (sym held ∙ p);
      unheld = λ off. held ∙ v.unheld (sym hold ∙ off);
    }

pub push-Ready :
    (port : Port) (own : Bool) (bytes : Option (List ℕ)) (size : ℕ) (pts : ℤ) (realloc : Option ℕ)
    → Ready port
    → FreshBlock port realloc
    → Ready (perform port (push own bytes size pts realloc)).0
unfolding perform
push-Ready port own bytes size pts realloc r fresh =
    let s = push_port_data-Staged port own bytes size pts realloc in
    record {
      for_data = ap (λ (p : Port). is_data p.media_type) s.only ∙ r.for_data;
      for_input = ap (λ (p : Port). is_in p.direction) s.only ∙ r.for_input;
      apart = push-Apart port own bytes size pts realloc r.apart fresh;
      staging = elim s.moved [
        | inl (d, c) ↦ λ e. c ∙ r.staging (sym d ∙ e)
        | inr (a, e, moved) ↦ λ gone. absurd (ground arith)
      ];
      delivering = λ e.
          ap (λ (p : Port). p.delivered_capacity) s.only
          ∙ r.delivering (sym (ap (λ (p : Port). p.delivered_data) s.only) ∙ e);
    }
