-- ===== src/Filter/Process/Cycle/Conserved.antt =====
-- The buffers of all ports in one cycle of src/pwf_filter_process.c.
use tinypipewire.Common.{
  ℕ, suc, ◌<◌, ◌≡◌, ◌⊎◌, inl, inr, Bool, false, not, ◌&&◌, Option, none, some, List, [], ◌∷◌, ◌++◌,
  map, length, ltb, ◌==◌, arith, Bool-cases,
}
use tinypipewire.Types.{PwBuffer}
use tinypipewire.Filter.State.{Port, PortBuffer}
use tinypipewire.Filter.Event.{PropIds, Control, Builder}
use tinypipewire.Filter.Process.Buffers.{
  acquire-release-conserves, Mapped, opt_list, taken, address,
}
use tinypipewire.Filter.Process.Cycle.{
  ProcessCallback, PortCycle, acquire_all, release_all, filter_on_process, stack_ports,
}

-- Every buffer that the graph gives has mapped data.
abbrev pub AllMapped : List (Port × Option PwBuffer) → Type 0
AllMapped [] = Unit {0}
AllMapped ((port, dq) ∷ ports) = Mapped dq × AllMapped ports

-- Port by port: the buffers that it held or that the graph gave are those queued back before the callback,
-- those held afterwards, and those queued back at the end.
abbrev pub AllConserved : List (Port × Option PwBuffer) → List PortCycle → Type 0
AllConserved [] [] = Unit {0}
AllConserved [] (c ∷ cycles) = ⊥
AllConserved (p ∷ ports) [] = ⊥
AllConserved ((port, dq) ∷ ports) (c ∷ cycles) =
    (map address (opt_list port.held ++ taken c.acquired dq)
      ≡ map address c.acquired.queued
        ++ map address (opt_list c.acquired.port.held)
        ++ map address c.queued)
    × AllConserved ports cycles

module _ (realloc : ℕ → Bool) (ids : PropIds) (parse : List ℕ → ℕ → Option (List Control))
    (builder : Builder) where
  release_all-AllConserved :
      (after : ℕ → Port × PortBuffer) (staged : Bool) (i : ℕ)
      (ports : List (Port × Option PwBuffer))
      → AllMapped ports
      → AllConserved ports (
          release_all realloc ids parse builder after i
            (acquire_all realloc ids parse builder staged ports))
  unfolding release_all acquire_all
  release_all-AllConserved after staged i [] m = tt
  release_all-AllConserved after staged i ((port, none) ∷ ports) m = (
    acquire-release-conserves realloc ids parse builder staged port (after i).0 (after i).1 none tt,
    release_all-AllConserved after staged (suc i) ports m.1,
  )
  release_all-AllConserved after staged i ((port, some b) ∷ ports) m = (
    acquire-release-conserves realloc ids parse builder staged port (after i).0 (after i).1 (some b)
        m.0,
    release_all-AllConserved after staged (suc i) ports m.1,
  )

  -- A process callback of a filter runs, unless the filter has no ports or has more than the stack holds
  -- and memory is short, whatever the application does; and then, on every port, if the graph's buffers
  -- have mapped data, no buffer is lost and none comes twice (`AllConserved`).
  pub filter_on_process-AllConserved :
      (cb : ProcessCallback) (heap staged : Bool) (ports : List (Port × Option PwBuffer))
      → AllMapped ports
      → let r = filter_on_process realloc ids parse builder cb heap staged ports in
        ((r ≡ none) × ((length ports ≡ 0) ⊎ ((stack_ports < length ports) × (heap ≡ false))))
        ⊎ ((cycles : List PortCycle) × (r ≡ some cycles) × AllConserved ports cycles)
  unfolding filter_on_process
  filter_on_process-AllConserved cb heap staged ports m =
      let all = acquire_all realloc ids parse builder staged ports in
      elim (Bool-cases (length ports == 0)) [
        | inl e ↦ inl (ground (arith, e), inl (ground arith))
        | inr e ↦ elim (Bool-cases (ltb stack_ports (length ports) && not heap)) [
          | inl h ↦ inl (ground (arith, e, h), inr (ground arith))
          | inr h ↦ inr (
            release_all realloc ids parse builder (cb all) 0 all,
            ground (arith, e, h),
            release_all-AllConserved (cb all) staged 0 ports m,
          )
        ]
      ]
