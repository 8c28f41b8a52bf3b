-- ===== src/Registry/Bind.antt =====
-- Binding the registry (src/pwf_pw_core.c): asking the server for it, and waiting for the round-trip that
-- ends the first enumeration, during which both the core's and the registry's events arrive.
use tinypipewire.Common.{
  ℕ, ◌-◌, ◌≡◌, refl, subst, Bool, true, false, not, ◌||◌, Option, List, [], ◌∷◌, String,
  if◌then◌else◌, All, inl, inr, Bool-cases, arith, ◌∙◌,
}
use tinypipewire.Common.Int.{ℤ, pos, negsuc}
use tinypipewire.Wait.{Waits, await, handle_all, delivered, await-delivered, await-done}
use tinypipewire.Core.{Conn, CoreCall, lock, unlock, CoreEvent, on_event}
use tinypipewire.Core.Sync.{asked, is_error, is_answer, Some, no_error, answered}
use tinypipewire.Registry.{Registry, Alloc, Global, on_global, on_global_remove}

-- What the loop thread delivers while the registry is bound.
pub data RegistryEvent : Type 0 where
  at_core : CoreEvent → RegistryEvent
  announced : ℕ → Alloc → Option Global → RegistryEvent
  gone : ℕ → RegistryEvent

-- A registry on its connection.
pub record Bound : Type 0 where
  pub registry : Registry
  pub conn : Conn

-- What `pw_core_get_registry` and `pw_core_sync` return, and what arrives during the wait.
pub record Binding : Type 0 where
  pub made : Bool
  pub seq : ℕ
  pub waits : Waits RegistryEvent

module _ (strtoull : String → ℕ) (etimedout : ℕ) where
  unfoldable pub on_registry_event : Bound → RegistryEvent → Bound
  on_registry_event b (at_core e) = record b { conn = on_event b.conn e }
  on_registry_event b (announced id alloc global) = record b {
    registry = (on_global strtoull b.registry id alloc global).0;
  }
  on_registry_event b (gone id) = record b { registry = (on_global_remove b.registry id).0 }

  -- `pwf_pw_core_sync_locked` on the connection of a bound registry
  unfoldable pub sync_bound : Bound → ℕ → Waits RegistryEvent → Bound
  sync_bound b seq waits =
      let (b', late) =
        await on_registry_event (λ (s : Bound). s.conn.sync_done)
          (record b { conn = asked b.conn seq }) waits in
      if late
      then record b' { conn = record b'.conn { connect_result = negsuc (etimedout - 1) } }
      else b'

  -- `pwf_pw_registry_bind`: what it returns, the registry and the connection, and the calls made.
  unfoldable pub registry_bind : Binding → Bound → ℤ × Bound × List CoreCall
  unfolding sync_bound
  registry_bind env b =
      let synced =
        sync_bound (record b { registry = record b.registry { bound = true } }) env.seq env.waits in
      if not b.conn.core
      then (negsuc 0, b, [])
      else if b.registry.bound
      then (pos 0, b, [])
      else if not env.made
      then (negsuc 0, b, lock ∷ unlock ∷ [])
      else (synced.conn.connect_result, synced, lock ∷ unlock ∷ [])

  -- `pwf_pw_registry_sync`
  unfoldable pub registry_sync : Binding → Bound → ℤ × Bound × List CoreCall
  unfolding sync_bound
  registry_sync env b =
      let synced = sync_bound b env.seq env.waits in
      if not b.registry.bound || not b.conn.core
      then (negsuc 0, b, [])
      else (synced.conn.connect_result, synced, lock ∷ unlock ∷ [])

  -- The core's part of the events.
  pub core_events : List RegistryEvent → List CoreEvent
  core_events [] = []
  core_events (at_core e ∷ events) = e ∷ core_events events
  core_events (announced id alloc global ∷ events) = core_events events
  core_events (gone id ∷ events) = core_events events

  -- The registry's part of them, on its own.
  pub cached : Registry → List RegistryEvent → Registry
  cached reg [] = reg
  cached reg (at_core e ∷ events) = cached reg events
  cached reg (announced id alloc global ∷ events) =
      cached (on_global strtoull reg id alloc global).0 events
  cached reg (gone id ∷ events) = cached (on_global_remove reg id).0 events

  handle_all-cached :
      (events : List RegistryEvent) (b : Bound)
      → handle_all on_registry_event b events ≡ record {
        registry = cached b.registry events;
        conn = handle_all on_event b.conn (core_events events);
      }
  unfolding handle_all on_registry_event core_events cached
  handle_all-cached [] b = refl
  handle_all-cached (at_core e ∷ events) b =
      handle_all-cached events (record b { conn = on_event b.conn e })
  handle_all-cached (announced id alloc global ∷ events) b =
      handle_all-cached events
        (record b { registry = (on_global strtoull b.registry id alloc global).0 })
  handle_all-cached (gone id ∷ events) b =
      handle_all-cached events (record b { registry = (on_global_remove b.registry id).0 })

  -- The events of the enumeration.
  abbrev pub enumerated : Binding → Bound → List RegistryEvent
  enumerated env b =
      delivered on_registry_event (λ (s : Bound). s.conn.sync_done)
        (record b { registry = record b.registry { bound = true }; conn = asked b.conn env.seq })
        env.waits

  -- When binding an unbound registry succeeds, the enumeration is complete: among the events delivered there is
  -- the server's answer to this very request and no error, and the caches are what the registry's
  -- events make of them in their order, wherever the core's events come between.
  pub registry_bind-Enumerated :
      (env : Binding) (b : Bound)
      → b.registry.bound ≡ false
      → (registry_bind env b).0 ≡ pos 0
      → ((registry_bind env b).1.registry
          ≡ cached (record b.registry { bound = true }) (enumerated env b))
        × All (λ e. is_error e ≡ false) (core_events (enumerated env b))
        × Some (is_answer env.seq) (core_events (enumerated env b))
  unfolding registry_bind sync_bound
  registry_bind-Enumerated env b fresh h =
      let flag = λ (s : Bound). s.conn.sync_done in
      let start : Bound = record b {
        registry = record b.registry { bound = true };
        conn = asked b.conn env.seq;
      } in
      let events = enumerated env b in
      let ended =
        await-delivered on_registry_event flag start env.waits ∙ handle_all-cached events start in
      elim (Bool-cases (await on_registry_event flag start env.waits).1) [
        | inl late ↦ absurd (ground arith)
        | inr in_time ↦
            let result : (handle_all on_event (asked b.conn env.seq)
                  (core_events events)).connect_result
                ≡ pos 0 =
              ground arith in
            let clean = no_error (core_events events) (asked b.conn env.seq) result in
            let flagged : (handle_all on_event (asked b.conn env.seq)
                  (core_events events)).sync_done
                ≡ true =
              subst (λ (s : Bound). s.conn.sync_done ≡ true) ended
                (await-done on_registry_event flag start env.waits in_time) in
            (
              ground arith,
              clean.1,
              ground (
                arith,
                answered env.seq (core_events events) (asked b.conn env.seq) refl clean.1 flagged,
              ),
            )
      ]
