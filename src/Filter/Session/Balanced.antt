-- ===== src/Filter/Session/Balanced.antt =====
-- That creating a filter (src/pwf_filter.c) leaves nothing behind where it fails, and that destroying one
-- takes back what creating it did.
use tinypipewire.Common.{
  ℕ, ◌+◌, ◌≡◌, none, Bool, true, false, Option, String, [], ◌∷◌, ◌++◌, refl, arith,
}
use tinypipewire.Common.Int.{ℤ, pos, is_negative}
use tinypipewire.Wait.{Waits}
use tinypipewire.Core.{lock, unlock, core_connect, core_teardown, global_deinit}
use tinypipewire.Registry.{Registry}
use tinypipewire.Stream.State.{Caller}
use tinypipewire.Core.Lifetime.{held}
use tinypipewire.Core.Opened.{
  zeroed, IsDown, IsBalanced, deinit_calls, give_up-IsBalanced, tear_down-IsBalanced,
  succeed-IsBalanced, core_connect-IsUp, held-append,
}
use tinypipewire.Filter.Ports.{Filter}
use tinypipewire.Filter.Lifecycle.{FilterEvent, filter_refuse_in_callback}
use tinypipewire.Filter.Session.{
  Creating, fresh_filter, filter_create, filter_destroy, filter_teardown,
}

-- However creating a filter goes, the loop lock is free afterwards. Either there is no filter, then nothing of
-- the connection is left, the count of clients is what it was, and PipeWire is shut down again if this call
-- initialised it; or there is one, then it is connected, and it is counted once more.
pub filter_create-IsBalanced :
    (env : Creating) (name : Option String) (n : ℕ) → IsBalanced n (filter_create env name (pos n))
unfolding filter_create held
filter_create-IsBalanced env name n =
    let (conn, result, calls) = core_connect zeroed env.core in
    let (free, up) = core_connect-IsUp env.core in
    let locked : held false (calls ++ lock ∷ unlock ∷ []) ≡ false =
      held-append false calls (lock ∷ unlock ∷ []) in
    let down : IsDown zeroed = (refl, refl, refl) in
    ground (
      arith,
      up,
      give_up-IsBalanced {A = Filter} n [] zeroed refl down,
      tear_down-IsBalanced {A = Filter} n calls conn free,
      tear_down-IsBalanced {A = Filter} n (calls ++ lock ∷ unlock ∷ []) conn locked,
      λ (h : is_negative result ≡ false).
          succeed-IsBalanced n (calls ++ lock ∷ unlock ∷ []) conn (fresh_filter name conn true)
            locked (up h),
    )

-- Destroying a filter from where it is allowed leaves no filter and nothing of the connection, takes it from the
-- count, shuts PipeWire down if it was the last client and only then, and gives the loop lock back.
pub filter_destroy-released :
    (same : ℤ → ℤ → Bool) (caller : Caller) (waits : Waits FilterEvent) (f : Filter)
    (reg : Registry) (n : ℕ)
    → filter_refuse_in_callback caller f true ≡ false
    → let d = filter_destroy same caller waits f reg (pos (n + 1)) in
      (d.filter ≡ none)
      × (d.count ≡ pos n)
      × (d.globals ≡ deinit_calls n)
      × IsDown d.last
      × (held false d.calls ≡ false)
unfolding filter_destroy filter_teardown core_teardown global_deinit held
filter_destroy-released same caller waits f reg n h = ground (arith, h)
