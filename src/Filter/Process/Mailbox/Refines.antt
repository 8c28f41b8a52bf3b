-- ===== src/Filter/Process/Mailbox/Refines.antt =====
-- That an input port for data is the mailbox (src/pwf_filter_port.c, src/pwf_filter_process.c).
use tinypipewire.Common.{◌≡◌, refl, List, [], ◌∷◌}
use tinypipewire.Filter.State.{Port}
use tinypipewire.Filter.Process.Mailbox.{Mailbox, Op, push, cycle, Report, perform, mailbox, Allows}
use tinypipewire.Filter.Process.Mailbox.Ready.{Ready, Proper, cycle-Ready}
use tinypipewire.Filter.Process.Mailbox.Stages.{push-Ready}
use tinypipewire.Filter.Process.Mailbox.Pushes.{push-Allows}
use tinypipewire.Filter.Process.Mailbox.Collects.{cycle-Allows}

-- What a history of operations leaves and reports.
pub perform_all : Port → List Op → Port × List Report
perform_all port [] = (port, [])
perform_all port (op ∷ ops) =
    let (next, report) = perform port op in
    let (last, reports) = perform_all next ops in (last, report ∷ reports)

-- Every push of it is proper when it comes.
abbrev pub AllProper : Port → List Op → Type 0
AllProper port [] = Unit {0}
AllProper port (op ∷ ops) = Proper port op × AllProper (perform port op).0 ops

-- The mailbox allows the history, with its reports, and ends so.
abbrev pub Runs : Mailbox → List Op → List Report → Mailbox → Type 0
Runs m [] [] last = last ≡ m
Runs m (op ∷ ops) (report ∷ reports) last =
    (next : Mailbox) × Allows m op report next × Runs next ops reports last
Runs m [] (report ∷ reports) last = ⊥
Runs m (op ∷ ops) [] last = ⊥

-- An input port for data refines the mailbox: in every history of pushes and cycles, a push that is taken
-- replaces what waits, a refused one changes nothing, and each cycle shows, byte for byte and with its
-- timestamp, what waits, else what the graph has, else with hold what was shown last, and marks as fresh
-- exactly what is new; whichever block the bytes lie in, as long as the two blocks
-- start as different allocations, `realloc` gives out no memory in use, and a push has as many bytes as
-- it says.
pub perform_all-Runs :
    (ops : List Op) (port : Port)
    → Ready port
    → AllProper port ops
    → let (last, reports) = perform_all port ops in
      Runs (mailbox port) ops reports (mailbox last) × Ready last
unfolding perform_all
perform_all-Runs [] port r p = (refl, r)
perform_all-Runs (push own bytes size pts realloc ∷ ops) port r p =
    let next = (perform port (push own bytes size pts realloc)).0 in
    let later =
      perform_all-Runs ops next (push-Ready port own bytes size pts realloc r p.0.1) p.1 in
    ((mailbox next, push-Allows port own bytes size pts realloc r p.0, later.0), later.1)
perform_all-Runs (cycle staged dq ∷ ops) port r p =
    let next = (perform port (cycle staged dq)).0 in
    let later = perform_all-Runs ops next (cycle-Ready port staged dq r) p.1 in
    ((mailbox next, cycle-Allows port staged dq, later.0), later.1)
