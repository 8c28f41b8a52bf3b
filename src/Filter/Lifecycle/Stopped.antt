-- ===== src/Filter/Lifecycle/Stopped.antt =====
-- What a draining stop keeps of a filter, and what a period hint asks for (src/pwf_filter.c).
use tinypipewire.Common.{
  ℕ, ◌+◌, ◌*◌, ◌^◌, ◌<◌, ◌≤◌, ◌≡◌, ◌⊎◌, Option-cases, Bool-cases, get_elem?, refl, Bool, false,
  List, [], ◌∷◌, arith, inl, inr, ap, ◌∙◌,
}
use tinypipewire.Common.Int.{ℤ}
use tinypipewire.Wait.{Waits, handle_all, delivered, await-delivered}
use tinypipewire.Filter.Link.{Effect}
use tinypipewire.Filter.Ports.{Filter, is_running}
use tinypipewire.Filter.Lifecycle.{
  period_hint_num, FilterEvent, drained, at_port, cycled, on_filter_event, filter_drain,
}

on_filter_event-conn :
    (same : ℤ → ℤ → Bool) (filter : Filter) (effects : List Effect) (e : FilterEvent)
    → (on_filter_event same (filter, effects) e).0.conn ≡ filter.conn
unfolding on_filter_event
on_filter_event-conn same filter effects drained = refl
on_filter_event-conn same filter effects (at_port i e) =
    elim (Option-cases (get_elem? filter.ports i)) [
      | inl n ↦ rw (n, on_filter_event) refl
      | inr (p, n) ↦ rw (n, on_filter_event) refl
    ]
on_filter_event-conn same filter effects (cycled leaves) =
    elim (Bool-cases (is_running filter.state)) [
      | inl r ↦ rw (r, on_filter_event) refl
      | inr r ↦ rw (r, on_filter_event) refl
    ]

handle_all-conn :
    (same : ℤ → ℤ → Bool) (s : Filter × List Effect) (events : List FilterEvent)
    → (handle_all (on_filter_event same) s events).0.conn ≡ s.0.conn
unfolding handle_all
handle_all-conn same s [] = refl
handle_all-conn same (filter, effects) (e ∷ events) =
    handle_all-conn same (on_filter_event same (filter, effects) e) events
    ∙ on_filter_event-conn same filter effects e

pub filter_drain-conn :
    (same : ℤ → ℤ → Bool) (filter : Filter) (waits : Waits FilterEvent)
    → (filter_drain same filter waits).0.conn ≡ filter.conn
unfolding filter_drain
filter_drain-conn same filter waits =
    let start : Filter × List Effect = (record filter { drained = false }, []) in
    let done : Filter × List Effect → Bool = λ s. s.0.drained in
    ap (λ (s : Filter × List Effect). s.0.conn)
      (await-delivered (on_filter_event same) done start waits)
    ∙ handle_all-conn same start (delivered (on_filter_event same) done start waits)

-- For every 32-bit period the numerator of the latency is at least 1, fits 32 bits, and is the largest that
-- does not exceed the period, unless none does.
pub period_hint_num_bounds :
    (period_ns : ℕ)
    → period_ns < 2 ^ 32
    → let num = period_hint_num period_ns in
      (1 ≤ num)
      × (num < 2 ^ 32)
      × (period_ns * 48000 < (num + 1) * 1_000_000_000)
      × ((num ≡ 1) ⊎ (num * 1_000_000_000 ≤ period_ns * 48000))
unfolding period_hint_num
period_hint_num_bounds period_ns h = ground arith
