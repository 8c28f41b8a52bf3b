-- ===== src/Filter/Push/Latest.antt =====
-- Pushed data on its way to the callback: the latest push wins, each is delivered at most once, and no
-- push touches what has been delivered.
use tinypipewire.Common.{
  ℕ, ◌≡◌, ◌≢◌, ◌⊎◌, inl, inr, subst, Option-cases, Bool-cases, Bool, false, Option, none, some,
  List, [], arith, ltb,
}
use tinypipewire.Common.Int.{ℤ}
use tinypipewire.Filter.State.{Port, block}
use tinypipewire.Filter.Push.{push_port_data, grow_push, stage_push, copy_in, write_block}

-- The two push blocks of a port are different allocations, and what the port holds, if it is a push
-- block, is the delivered one. A port without hold holds nothing.
pub record Apart (port : Port) : Type 0 where
  pub different : (a d : ℕ) → port.pushed_data ≡ some a → port.delivered_data ≡ some d → a ≢ d
  pub held_delivered : (a : ℕ) → port.held_data ≡ some (block a) → port.delivered_data ≡ some a
  pub unheld : port.hold_enabled ≡ false → port.held_data ≡ none

-- `realloc` never hands out memory that is in use.
abbrev pub FreshBlock : Port → Option ℕ → Type 0
FreshBlock port none = Unit {0}
FreshBlock port (some a) = (d : ℕ) → port.delivered_data ≡ some d → a ≢ d

fresh_away :
    (port : Port) (realloc : Option ℕ) (d : ℕ)
    → FreshBlock port realloc
    → port.delivered_data ≡ some d
    → (a : ℕ) → realloc ≡ some a
    → a ≢ d
fresh_away port none d f e a h = cc
fresh_away port (some x) d f e a h = subst (λ y. y ≢ d) (cc) (f d e)

-- The push block lies apart from an address.
abbrev Away : Port → ℕ → Type 0
Away port d = (a : ℕ) → port.pushed_data ≡ some a → a ≢ d

-- What a step leaves as it was: the bytes at the address, and all that the data thread owns.
record Spares (d : ℕ) (port next : Port) : Type 0 where
  bytes : next.blocks d ≡ port.blocks d
  delivered : next.delivered_data ≡ port.delivered_data
  held : next.held_data ≡ port.held_data
  held_size : next.held_size ≡ port.held_size

copy_in-Spares :
    (d : ℕ) (port : Port) (bytes : List ℕ) (size : ℕ)
    → Away port d
    → Spares d port (copy_in port bytes size)
      × ((copy_in port bytes size).pushed_data ≡ port.pushed_data)
unfolding copy_in
copy_in-Spares d port bytes size away = elim (Option-cases port.pushed_data) [
  | inl e ↦ ground arith
  | inr (a, e) ↦ ground (arith, away a e)
]

grow_push-Spares :
    (d size : ℕ) (port : Port) (realloc : Option ℕ)
    → Away port d
    → ((a : ℕ) → realloc ≡ some a → a ≢ d)
    → (grow_push port size realloc ≡ none)
      ⊎ ((roomy : Port) × (grow_push port size realloc ≡ some roomy)
          × Spares d port roomy
          × Away roomy d)
unfolding grow_push
grow_push-Spares d size port realloc away fresh =
    elim (Bool-cases (ltb port.pushed_capacity size)) [
      | inr fits ↦ inr (port, ground arith, ground arith, away)
      | inl grows ↦ elim (Option-cases realloc) [
        | inl e ↦ inl (ground arith)
        | inr (a, e) ↦ inr (
          record port {
            blocks =
                write_block port.blocks a
                  (elim port.pushed_data [ none ↦ [] | some old ↦ port.blocks old ]);
            pushed_data = some a;
            pushed_capacity = size;
          },
          ground arith,
          ground (arith, fresh a e),
          λ x h. subst (λ y. y ≢ d) (cc) (fresh a e),
        )
      ]
    ]

stage_push-Spares :
    (d size : ℕ) (port roomy : Port) (bytes : Option (List ℕ)) (pts : ℤ)
    → Spares d port roomy
    → Away roomy d
    → Spares d port (stage_push (some roomy) port bytes size pts).0
unfolding stage_push
stage_push-Spares d size port roomy none pts s away = ground arith
stage_push-Spares d size port roomy (some b) pts s away =
    ground (arith, copy_in-Spares d roomy b size away)

staged-Spares :
    (d size : ℕ) (port : Port) (bytes : Option (List ℕ)) (pts : ℤ) (realloc : Option ℕ)
    → Away port d
    → ((a : ℕ) → realloc ≡ some a → a ≢ d)
    → Spares d port (stage_push (grow_push port size realloc) port bytes size pts).0
staged-Spares d size port bytes pts realloc away fresh =
    elim (grow_push-Spares d size port realloc away fresh) [
      | inl failed ↦ rw failed (unfold stage_push in ground arith)
      | inr (roomy, grew, spares, away') ↦
          rw grew (stage_push-Spares d size port roomy bytes pts spares away')
    ]

-- A push, taken or refused, at any time and of any size, never changes a byte of the block that was
-- delivered last, so neither what the callback is reading nor what hold shows again: as long as the two
-- blocks of the port are different allocations and `realloc` gives out no memory in use.
pub push_port_data-Spares :
    (own : Bool) (port : Port) (bytes : Option (List ℕ)) (size : ℕ) (pts : ℤ) (realloc : Option ℕ)
    (d : ℕ)
    → Apart port
    → FreshBlock port realloc
    → port.delivered_data ≡ some d
    → let next = (push_port_data own port bytes size pts realloc).0 in
      (next.blocks d ≡ port.blocks d)
      × (next.delivered_data ≡ port.delivered_data)
      × (next.held_data ≡ port.held_data)
      × (next.held_size ≡ port.held_size)
unfolding push_port_data
push_port_data-Spares own port bytes size pts realloc d v f e = ground (
  arith,
  staged-Spares d size port bytes pts realloc (λ a h. v.different a d h e)
      (fresh_away port realloc d f e),
)
