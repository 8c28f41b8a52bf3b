-- ===== src/Filter/Process/Mailbox/Collects.antt =====
-- A cycle of an input port for data (src/pwf_filter_process.c), on the mailbox that the port is.
use tinypipewire.Common.{
  ◌≡◌, inl, inr, refl, Bool, true, false, ◌&&◌, Option, none, some, if◌then◌else◌, arith,
  Option-cases, Bool-cases, ap, ◌∙◌, sym,
}
use tinypipewire.Types.{PwBuffer}
use tinypipewire.Filter.State.{Port, PortBuffer}
use tinypipewire.Filter.Process.{
  acquire_input, take_push, take_graph, settle, buffer_pts, input_buffer_present, Got, blank,
}
use tinypipewire.Filter.Process.Mailbox.{
  Datum, Mailbox, cycle, perform, mailbox, Allows, collect, graph_datum, show_new, read,
}

-- What a port and a buffer are to the application.
abbrev seen : Port → PortBuffer → Mailbox × Datum × Bool
seen port buffer = (mailbox port, read port buffer, buffer.fresh)

settle-new :
    (g : Got)
    → g.got_new ≡ true
    → seen (settle g).port (settle g).buffer ≡ show_new (read g.port g.buffer) (mailbox g.port)
unfolding settle
settle-new g new = elim (Bool-cases g.port.hold_enabled) [
  | inl on ↦ ground arith
  | inr off ↦ ground arith
]

settle-old :
    (g : Got)
    → g.got_new ≡ false
    → g.buffer ≡ blank
    → seen (settle g).port (settle g).buffer ≡ (mailbox g.port, (mailbox g.port).kept, false)
unfolding settle
settle-old g old e = elim (Bool-cases (g.port.hold_enabled && g.port.has_held)) [
  | inl on ↦ ground arith
  | inr off ↦ ground arith
]

take_push-collects :
    (port : Port)
    → port.pushed_pending ≡ true
    → (mailbox (take_push port).port ≡ record (mailbox port) { waiting = none })
      × ((mailbox port).waiting ≡ some (read (take_push port).port (take_push port).buffer))
unfolding take_push
take_push-collects port h = elim (Option-cases port.pushed_data) [
  | inl e ↦ ground arith
  | inr (a, e) ↦ ground arith
]

take_graph-collects :
    (port : Port) (dq : Option PwBuffer)
    → let g = take_graph port dq in
      (mailbox g.port ≡ mailbox port)
      × ((graph_datum port.use_dmabuf dq
            ≡ (if g.got_new then some (read g.port g.buffer) else none))
          × (g.got_new ≡ false → g.buffer ≡ blank))
unfolding take_graph input_buffer_present buffer_pts
take_graph-collects port none = ground arith
take_graph-collects port (some b) = elim (Option-cases (b.buffer.datas 0).mapped) [
  | inl e ↦ ground arith
  | inr (bytes, e) ↦ ground arith
]

-- What a cycle without a push shows.
abbrev collected : Option Datum → Mailbox → Mailbox × Datum × Bool
collected none m = (m, m.kept, false)
collected (some d) m = show_new d m

graph_cycle :
    (port : Port) (dq : Option PwBuffer)
    → let a = settle (take_graph port dq) in
      seen a.port a.buffer ≡ collected (graph_datum port.use_dmabuf dq) (mailbox port)
graph_cycle port dq =
    let g = take_graph port dq in
    let (same, (datum, empty)) = take_graph-collects port dq in
    elim (Bool-cases g.got_new) [
      | inl new ↦
          let news : graph_datum port.use_dmabuf dq ≡ some (read g.port g.buffer) =
            datum ∙ rw new refl in
          rw news (settle-new g new ∙ ap (λ m. show_new (read g.port g.buffer) m) same)
      | inr old ↦
          let none_new : graph_datum port.use_dmabuf dq ≡ none = datum ∙ rw old refl in
          rw none_new (settle-old g old (empty old) ∙ ap (λ (m : Mailbox). (m, m.kept, false)) same)
    ]

push_cycle :
    (port : Port)
    → port.pushed_pending ≡ true
    → (from_graph : Option Datum)
    → let a = settle (take_push port) in
      seen a.port a.buffer ≡ collect true from_graph (mailbox port)
push_cycle port h from_graph =
    let g = take_push port in
    let (taken, waits) = take_push-collects port h in
    settle-new g (unfold take_push in refl)
    ∙ ap (λ m. show_new (read g.port g.buffer) m) taken
    ∙ sym (rw waits refl)

collect-blocked : (d : Option Datum) (m : Mailbox) → collect false d m ≡ collected d m
collect-blocked d m = elim (Option-cases m.waiting) [
  | inl e ↦ elim (Option-cases d) [ inl f ↦ ground arith | inr (x, f) ↦ ground arith ]
  | inr (w, e) ↦ elim (Option-cases d) [ inl f ↦ ground arith | inr (x, f) ↦ ground arith ]
]

collect-empty :
    (look : Bool) (d : Option Datum) (m : Mailbox)
    → m.waiting ≡ none
    → collect look d m ≡ collected d m
collect-empty look d m e = elim (Option-cases d) [
  | inl f ↦ ground arith
  | inr (x, f) ↦ ground arith
]

chosen :
    {A : Type 0} (c : Bool) (x y : A) (b : Bool)
    → c ≡ b
    → (if c then x else y) ≡ (if b then x else y)
chosen c x y b e = ap (λ k. if k then x else y) e

-- What a cycle shows and leaves is what the mailbox collects.
acquire_input-collect :
    (staged : Bool) (port : Port) (dq : Option PwBuffer)
    → let a = acquire_input staged port dq in
      seen a.port a.buffer ≡ collect staged (graph_datum port.use_dmabuf dq) (mailbox port)
unfolding acquire_input
acquire_input-collect staged port dq =
    let shows : Got → Mailbox × Datum × Bool = λ g. seen (settle g).port (settle g).buffer in
    let choice = λ (b : Bool) (h : (staged && port.pushed_pending) ≡ b).
      ap shows (chosen (staged && port.pushed_pending) (take_push port) (take_graph port dq) b h) in
    let d = graph_datum port.use_dmabuf dq in
    let m = mailbox port in
    elim (Bool-cases port.pushed_pending) [
      | inl pending ↦ elim (Bool-cases staged) [
        | inl on ↦
            choice true (rw (on, pending) refl)
            ∙ push_cycle port pending d
            ∙ ap (λ k. collect k d m) (sym on)
        | inr off ↦
            choice false (rw off refl)
            ∙ graph_cycle port dq
            ∙ sym (collect-blocked d m)
            ∙ ap (λ k. collect k d m) (sym off)
      ]
      | inr idle ↦
          let waits : m.waiting ≡ none = rw idle refl in
          choice false (ground arith) ∙ graph_cycle port dq ∙ sym (collect-empty staged d m waits)
    ]

pub cycle-Allows :
    (port : Port) (staged : Bool) (dq : Option PwBuffer)
    → let (next, report) = perform port (cycle staged dq) in
      Allows (mailbox port) (cycle staged dq) report (mailbox next)
unfolding perform
cycle-Allows port staged dq =
    acquire_input-collect staged (record port { current_dmabuf_buf = none }) dq
