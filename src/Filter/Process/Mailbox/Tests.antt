-- ===== src/Filter/Process/Mailbox/Tests.antt =====
-- The theorem on the mailbox at a new input port for audio.
use tinypipewire.Common.{refl, true, false, none, some, List, [], ◌∷◌, arith}
use tinypipewire.Common.Int.{pos}
use tinypipewire.Types.{DataType}
use tinypipewire.Filter.State.{Port, PortDirection}
use tinypipewire.Filter.Ports.{new_port, no_video}
use tinypipewire.Filter.Process.Mailbox.{Op, push, cycle, mailbox}
use tinypipewire.Filter.Process.Mailbox.Ready.{Ready}
use tinypipewire.Filter.Process.Mailbox.Refines.{perform_all, perform_all-Runs, Runs}

abbrev holding_port : Port
holding_port = record (new_port PortDirection.input DataType.audio false 0 no_video).io {
  hold_enabled = true;
}

holding_port-Ready : Ready holding_port
holding_port-Ready = record {
  for_data = refl;
  for_input = refl;
  apart = record {
    different = λ a d p q e. ground arith;
    held_delivered = λ a p. ground arith;
    unheld = λ p. ground arith;
  };
  staging = λ e. refl;
  delivering = λ e. refl;
}

-- Two bytes are pushed, a cycle shows them, and another shows them again.
abbrev history : List Op
history = push true (some (1 ∷ 2 ∷ [])) 2 (pos 5) (some 10) ∷ cycle true none ∷ cycle true none ∷ []

perform_all-Runs_example :
    let (last, reports) = perform_all holding_port history in
    Runs (mailbox holding_port) history reports (mailbox last) × Ready last
perform_all-Runs_example =
    perform_all-Runs history holding_port holding_port-Ready
      ((λ b e. ground arith, λ d e. ground arith), (tt, (tt, tt)))
