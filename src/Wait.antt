-- ===== src/Wait.antt =====
-- The bounded waits on the thread loop:
--   while (!done) { if (pw_thread_loop_timed_wait_full(loop, &deadline) < 0) { ...; break; } }
-- in src/pwf_pw_core.c, src/pwf_stream.c, src/pwf_stream_routing.c, src/pwf_filter.c and
-- src/pwf_filter_port_link.c. While a wait lasts the loop thread runs callbacks, which is where the
-- flag that the loop tests is set.
use tinypipewire.Common.{
  ◌≡◌, refl, Bool, true, false, List, [], ◌∷◌, ◌++◌, inl, inr, arith, if◌then◌else◌, ◌∙◌, sym,
  Bool-cases, All, All-append,
}

-- What the loop thread delivers: during each wait that is woken before the deadline, and during the
-- one that reaches it. There is one such last wait, since the deadline is fixed before the loop.
pub record Waits (E : Type 0) : Type 0 where
  pub woken : List (List E)
  pub late : List E

module _ {S E : Type 0} (handle : S → E → S) where
  unfoldable pub handle_all : S → List E → S
  handle_all s [] = s
  handle_all s (e ∷ events) = handle_all (handle s e) events

  -- The state after the loop, and whether it ended by the deadline.
  unfoldable pub await_woken : (S → Bool) → List E → S → List (List E) → S × Bool
  unfolding handle_all
  await_woken done late s [] = if done s then (s, false) else (handle_all s late, true)
  await_woken done late s (batch ∷ woken) =
      let rest = await_woken done late (handle_all s batch) woken in
      if done s then (s, false) else rest

  unfoldable pub await : (S → Bool) → S → Waits E → S × Bool
  unfolding await_woken
  await done s w = await_woken done w.late s w.woken

  -- The events that are delivered before the loop ends.
  unfoldable pub delivered_woken : (S → Bool) → List E → S → List (List E) → List E
  unfolding handle_all
  delivered_woken done late s [] = if done s then [] else late
  delivered_woken done late s (batch ∷ woken) =
      let rest = batch ++ delivered_woken done late (handle_all s batch) woken in
      if done s then [] else rest

  abbrev pub delivered : (S → Bool) → S → Waits E → List E
  delivered done s w = delivered_woken done w.late s w.woken

  handle_all-append :
      (s : S) (xs ys : List E) → handle_all s (xs ++ ys) ≡ handle_all (handle_all s xs) ys
  unfolding handle_all
  handle_all-append s [] ys = refl
  handle_all-append s (x ∷ xs) ys = handle_all-append (handle s x) xs ys

  await_woken-delivered :
      (done : S → Bool) (late : List E) (s : S) (woken : List (List E))
      → (await_woken done late s woken).0 ≡ handle_all s (delivered_woken done late s woken)
  unfolding await_woken delivered_woken
  await_woken-delivered done late s [] = elim (Bool-cases (done s)) [
    | inl d ↦ unfold handle_all in rw d
    | inr d ↦ rw d
  ]
  await_woken-delivered done late s (batch ∷ woken) = elim (Bool-cases (done s)) [
    | inl d ↦ unfold handle_all in rw d
    | inr d ↦ rw d (
        await_woken-delivered done late (handle_all s batch) woken
        ∙ sym (handle_all-append s batch _))
  ]

  -- The state after a wait is that of the delivered events, handled in order.
  pub await-delivered :
      (done : S → Bool) (s : S) (w : Waits E)
      → (await done s w).0 ≡ handle_all s (delivered done s w)
  unfolding await
  await-delivered done s w = await_woken-delivered done w.late s w.woken

  await_woken-done :
      (done : S → Bool) (late : List E) (s : S) (woken : List (List E))
      → (await_woken done late s woken).1 ≡ false
      → done (await_woken done late s woken).0 ≡ true
  unfolding await_woken
  await_woken-done done late s [] h = elim (Bool-cases (done s)) [
    | inl d ↦ rw d d
    | inr d ↦ absurd (ground arith)
  ]
  await_woken-done done late s (batch ∷ woken) h = elim (Bool-cases (done s)) [
    | inl d ↦ rw d d
    | inr d ↦ rw d (await_woken-done done late (handle_all s batch) woken (rw d at h))
  ]

  -- A wait that does not reach the deadline ends with the flag set.
  pub await-done :
      (done : S → Bool) (s : S) (w : Waits E)
      → (await done s w).1 ≡ false
      → done (await done s w).0 ≡ true
  unfolding await
  await-done done s w h = await_woken-done done w.late s w.woken h

  All-delivered_woken :
      (P : E → Type 0) (done : S → Bool) (late : List E) (s : S) (woken : List (List E))
      → All (λ batch. All P batch) woken
      → All P late
      → All P (delivered_woken done late s woken)
  unfolding delivered_woken
  All-delivered_woken P done late s [] p q = elim (Bool-cases (done s)) [
    | inl d ↦ rw d tt
    | inr d ↦ rw d q
  ]
  All-delivered_woken P done late s (batch ∷ woken) p q = elim (Bool-cases (done s)) [
    | inl d ↦ rw d tt
    | inr d ↦ rw d (
        All-append P batch _ p.0 (All-delivered_woken P done late (handle_all s batch) woken p.1 q))
  ]

  -- What holds of every event that may arrive holds of those that are delivered.
  pub All-delivered :
      (P : E → Type 0) (done : S → Bool) (s : S) (w : Waits E)
      → All (λ batch. All P batch) w.woken
      → All P w.late
      → All P (delivered done s w)
  All-delivered P done s w p q = All-delivered_woken P done w.late s w.woken p q
