-- ===== src/Core/Sync.antt =====
-- What success of a round-trip of src/pwf_pw_core.c means.
use tinypipewire.Common.{
  ℕ, ◌<◌, ◌≡◌, refl, subst, ◌⊎◌, inl, inr, Bool, true, false, ◌&&◌, List, [], ◌∷◌, arith, All, ◌==◌,
  Bool-cases,
}
use tinypipewire.Common.Int.{pos, negsuc}
use tinypipewire.Types.{timeout}
use tinypipewire.Wait.{Waits, await, handle_all, delivered, await-delivered, await-done}
use tinypipewire.Core.{
  Conn, CoreEvent, done, error, on_event, round_trip, sync_locked, error_from_sync,
}

-- The event is an error.
abbrev pub is_error : CoreEvent → Bool
is_error (done is_core seq) = false
is_error (error res) = true

-- The event is the server's answer to the request of that number.
abbrev pub is_answer : ℕ → CoreEvent → Bool
is_answer seq (done is_core s) = is_core && s == seq
is_answer seq (error res) = false

-- One of the events passes.
abbrev pub Some : (CoreEvent → Bool) → List CoreEvent → Type 0
Some p [] = ⊥
Some p (e ∷ events) = (p e ≡ true) ⊎ Some p events

pub no_error :
    (events : List CoreEvent) (s : Conn)
    → (handle_all on_event s events).connect_result ≡ pos 0
    → (s.connect_result ≡ pos 0) × All (λ e. is_error e ≡ false) events
unfolding handle_all on_event
no_error [] s h = (h, tt)
no_error (done is_core seq ∷ events) s h =
    ground (arith, no_error events (on_event s (done is_core seq)) h)
no_error (error (pos n) ∷ events) s h =
    absurd (ground (arith, no_error events (on_event s (error (pos n))) h))
no_error (error (negsuc n) ∷ events) s h =
    absurd (ground (arith, no_error events (on_event s (error (negsuc n))) h))

pub answered :
    (seq : ℕ) (events : List CoreEvent) (s : Conn)
    → s.pending_seq ≡ seq
    → All (λ e. is_error e ≡ false) events
    → (handle_all on_event s events).sync_done ≡ true
    → (s.sync_done ≡ true) ⊎ Some (is_answer seq) events
unfolding handle_all on_event
answered seq [] s p a h = inl h
answered seq (done is_core n ∷ events) s p a h =
    ground (arith, answered seq events (on_event s (done is_core n)))
answered seq (error res ∷ events) s p a h = cc

abbrev pub asked : Conn → ℕ → Conn
asked conn seq = record conn { pending_seq = seq; sync_done = false; connect_result = pos 0 }

-- A round-trip that reports success was answered: among the
-- events delivered in time there is the server's `done` for this very request, and no error.
pub sync_locked-answered :
    (etimedout : ℕ) (conn : Conn) (seq : ℕ) (waits : Waits CoreEvent)
    → (sync_locked etimedout conn seq waits).connect_result ≡ pos 0
    → (events : List CoreEvent) × (events
        ≡ delivered on_event
            (λ c. c.sync_done)
            (record conn { pending_seq = seq; sync_done = false; connect_result = pos 0 })
            waits)
      × All (λ e. is_error e ≡ false) events
      × Some (is_answer seq) events
unfolding sync_locked round_trip
sync_locked-answered etimedout conn seq waits h =
    let flag = λ (c : Conn). c.sync_done in
    let events = delivered on_event flag (asked conn seq) waits in
    let ended = await-delivered on_event flag (asked conn seq) waits in
    elim (Bool-cases (await on_event flag (asked conn seq) waits).1) [
      | inl late ↦ absurd (ground arith)
      | inr in_time ↦
          let result : (handle_all on_event (asked conn seq) events).connect_result ≡ pos 0 =
            ground arith in
          let clean = no_error events (asked conn seq) result in
          let flagged : (handle_all on_event (asked conn seq) events).sync_done ≡ true =
            subst (λ (c : Conn). c.sync_done ≡ true) ended
              (await-done on_event flag (asked conn seq) waits in_time) in
          (
            events,
            refl,
            clean.1,
            ground (arith, answered seq events (asked conn seq) refl clean.1 flagged),
          )
    ]

-- A round-trip that the deadline ends is reported as a timeout.
pub error_from_sync-timeout :
    (etimedout : ℕ) (conn : Conn) (seq : ℕ) (waits : Waits CoreEvent)
    → 0 < etimedout
    → (await on_event
        (λ c. c.sync_done)
        (record conn { pending_seq = seq; sync_done = false; connect_result = pos 0 })
        waits).1
      ≡ true
    → error_from_sync etimedout (sync_locked etimedout conn seq waits).connect_result ≡ timeout
unfolding sync_locked round_trip error_from_sync
error_from_sync-timeout etimedout conn seq waits h late = ground arith
