-- ===== src/Filter/Process/Ownership.antt =====
-- The swap of a cycle keeps the two push blocks of a port apart.
use tinypipewire.Common.{ℕ, ◌≡◌, ◌≢◌, Bool, false, Option, none, some, arith}
use tinypipewire.Types.{PwBuffer}
use tinypipewire.Filter.State.{Port, block}
use tinypipewire.Filter.Push.Latest.{Apart}
use tinypipewire.Filter.Process.{acquire_input, take_push, take_graph, settle}

module _ (staged : Bool) (port : Port) (dq : Option PwBuffer) (v : Apart port) where
  swap-different :
      (a d : ℕ)
      → (acquire_input staged port dq).port.pushed_data ≡ some a
      → (acquire_input staged port dq).port.delivered_data ≡ some d
      → a ≢ d
  unfolding acquire_input take_push take_graph settle
  swap-different a d = elim dq [
    | none ↦ λ p q e. ground (arith, v.different a d, v.different d a)
    | some b ↦ λ p q e. ground (arith, v.different a d, v.different d a)
  ]

  swap-held :
      (a : ℕ)
      → (acquire_input staged port dq).port.held_data ≡ some (block a)
      → (acquire_input staged port dq).port.delivered_data ≡ some a
  unfolding acquire_input take_push take_graph settle
  swap-held a = elim dq [
    | none ↦ λ p. ground (arith, v.held_delivered a, v.unheld)
    | some b ↦ λ p. ground (arith, v.held_delivered a, v.unheld)
  ]

  swap-unheld :
      (acquire_input staged port dq).port.hold_enabled ≡ false
      → (acquire_input staged port dq).port.held_data ≡ none
  unfolding acquire_input take_push take_graph settle
  swap-unheld = elim dq [
    | none ↦ λ p. ground (arith, v.unheld)
    | some b ↦ λ p. ground (arith, v.unheld)
  ]

  -- A cycle of an input port for data, with or without new data, keeps its two push blocks apart, and
  -- what the port holds, where that is a push block, is the one that was delivered last.
  pub acquire_input-Apart : Apart (acquire_input staged port dq).port
  acquire_input-Apart = record {
    different = swap-different;
    held_delivered = swap-held;
    unheld = swap-unheld;
  }
