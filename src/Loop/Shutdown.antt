-- ===== src/Loop/Shutdown.antt =====
-- src/python_api/loop/shutdown.c: what becomes of the requests in flight when a loop is closed.
pub mod Flights
use puring.Base.{
  ℕ, ◌==◌, ◌≡◌, ℤ, to_signed, Option, none, some, Bool, true, false, List, [], ◌∷◌, ◌++◌,
  if◌then◌else◌,
}
use puring.Uring.{Liburing, Trace, cqe_seen, wakeup_fd_tag}
use puring.Store.{Store}
use puring.Registry.{RequestSlot, slot_at, registry_get, registry_remove, registry_destroy}
use puring.Ring.{ring_destroy}
use puring.Dispatch.{◌>>=◌}
use puring.Submit.{World}
use puring.Reader.{Cqe}
use puring.Reader.Step.{index_of}

-- The future that is told that the loop is closed, if there is one and the exception can be made.
abbrev pub told : Bool → Option ℕ → List ℕ
told true none = []
told true (some future) = future ∷ []
told false future = []

-- The rest of a round from the slot on: the state, and the futures that are told. `none` is the call
-- of `abort`.
unfoldable pub shutdown_slot : Bool → Cqe → Option ℕ → World → Option (World × List ℕ)
shutdown_slot makes cqe none w = some (record w { trace = cqe_seen cqe.user_data ∷ w.trace }, [])
shutdown_slot makes cqe (some i) w = do
  (registry, store) ← registry_remove w.registry (index_of cqe) w.store
  some (
    record { registry = registry; store = store; trace = cqe_seen cqe.user_data ∷ w.trace },
    told makes (slot_at w.registry i).future,
  )

-- One round of the `while` of `graceful_shutdown`.
unfoldable pub shutdown_cqe : Bool → Cqe → World → Option (World × List ℕ)
unfolding shutdown_slot
shutdown_cqe makes cqe w =
    if cqe.user_data == wakeup_fd_tag
    then some (record w { trace = cqe_seen cqe.user_data ∷ w.trace }, [])
    else shutdown_slot makes cqe (registry_get w.registry (index_of cqe)) w

-- The `while`, on the completions that come in before one takes longer than 100 ms; `makes` says
-- whether the exception for a completion can be made.
unfoldable pub shutdown_cqes : (Cqe → Bool) → List Cqe → World → Option (World × List ℕ)
unfolding shutdown_cqe
shutdown_cqes makes [] w = some (w, [])
shutdown_cqes makes (cqe ∷ cqes) w = do
  (w₁, first) ← shutdown_cqe (makes cqe) cqe w
  (w₂, later) ← shutdown_cqes makes cqes w₁
  some (w₂, first ++ later)

module _ (k : Liburing) where
  -- `graceful_shutdown`, but for the reset of the context variable: the store, the calls made, and
  -- the futures that are told.
  unfoldable pub graceful_shutdown :
      (Cqe → Bool) → List Cqe → World → Option (Store × Trace × List ℕ)
  unfolding shutdown_cqes ring_destroy registry_destroy
  graceful_shutdown makes cqes w = do
    (w', futures) ← shutdown_cqes makes cqes w
    some (registry_destroy w'.registry.slots w'.store, (ring_destroy k w'.trace).1, futures)

  unfoldable pub fast_shutdown : World → Store × Trace
  unfolding ring_destroy registry_destroy
  fast_shutdown w = (registry_destroy w.registry.slots w.store, (ring_destroy k w.trace).1)
