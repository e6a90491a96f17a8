-- ===== src/Loop/Object/Closes.antt =====
-- The end of a loop with requests in flight, and of one that was never initialized.
use puring.Base.{ℕ, ◌≡◌, refl, ap, ◌∙◌, pos, negsuc, some, none, Bool, true, false, List, [], ◌∷◌}
use puring.Uring.{Liburing}
use puring.Uring.Queue.{NoReuse}
use puring.Registry.{registry_new}
use puring.Registry.Valid.{IsValid}
use puring.Submit.{World}
use puring.Reader.{Cqe, Host}
use puring.Reader.Step.{Loop}
use puring.System
use puring.System.{System}
use puring.Dispatch.{◌>>=◌}
use puring.Loop.Shutdown.{graceful_shutdown}
use puring.Loop.Shutdown.Flights.{Lands, futures_of, graceful_shutdown-tells}
use puring.Loop.Object.{
  UringioLoop, closed, shut_down, Process, noting, Ending, new_loop, after_shutdown, after_close,
  close_wakeup, loop_clear, shut, close_ring, loop_close, dealloc_ring, loop_dealloc,
}
use puring.Loop.Object.Stage.{after_close-open}

-- A world that the loop and the rest of the process hold.
abbrev pub HoldsWorld : UringioLoop → Process → World → Type 0
HoldsWorld loop s w =
    (loop.registry ≡ some w.registry) × (s.python.store ≡ w.store) × (s.python.trace ≡ w.trace)

-- The ending where the exceptions can all be made.
abbrev pub ending : List Cqe → Bool → Ending
ending cqes sets = record { cqes = cqes; makes = λ cqe. true; sets = sets }

shut-graceful :
    (k : Liburing) (a : Ending) (loop : UringioLoop) (s : Process) (w : World)
    → HoldsWorld loop s w
    → shut k a loop.registry s
      ≡ graceful_shutdown k a.makes a.cqes w >>= λ shutdown. some (after_shutdown a s shutdown)
unfolding shut
shut-graceful k a loop s w (registry, store, trace) =
    ap (λ o. shut k a o s) registry
    ∙ ap
        (λ x.
          graceful_shutdown k a.makes a.cqes
            (record { registry = w.registry; store = x; trace = s.python.trace })
          >>= λ shutdown. some (after_shutdown a s shutdown))
        store
    ∙ ap
        (λ t.
          graceful_shutdown k a.makes a.cqes
            (record { registry = w.registry; store = w.store; trace = t })
          >>= λ shutdown. some (after_shutdown a s shutdown))
        trace

-- A loop without a ring and without a descriptor.
abbrev IsGone : UringioLoop → Type 0
IsGone loop = (loop.has_ring ≡ false) × (loop.wakeup_fd ≡ negsuc 0)

close-gone :
    (k : Liburing) (base : Bool) (a : Ending) (loop : UringioLoop) (s : Process)
    → IsGone loop
    → loop_close k true base a loop s ≡ some (true, [], loop, s)
unfolding loop_close close_ring
close-gone k base a loop s (gone, fd_gone) = ap (λ b. close_ring k b base a loop s) gone

dealloc-gone :
    (k : Liburing) (a : Ending) (loop : UringioLoop) (s : Process)
    → IsGone loop
    → loop_dealloc k a loop s ≡ some ([], s)
unfolding loop_dealloc dealloc_ring close_wakeup
dealloc-gone k a loop s (gone, fd_gone) =
    ap (λ b. dealloc_ring k b a (close_wakeup loop.wakeup_fd (loop_clear loop) s)) gone
    ∙ ap (λ n. dealloc_ring k false a (close_wakeup n (loop_clear loop) s)) fd_gone

module _ (k : Liburing) (fresh : NoReuse k) (h : Host) (start : Loop)
    (v : IsValid start.world.registry) where
  -- `UringioLoop_close` of a loop with requests in flight, in any state that it can have come to from
  -- a valid registry with nothing in flight: where each completion that comes in belongs to a request
  -- in flight, and the exceptions can be made, it succeeds, tells the future of each of these
  -- requests, in their order, that the loop is closed, calls `graceful_shutdown` once and closes the
  -- descriptor. To close the loop once more, and to deallocate it, changes nothing. The completions
  -- that come in at the close are taken to belong to different requests in flight, none of which a
  -- turn of the reader has ended on before, unless it left the registry as it was. The completions
  -- before the close may be any, and liburing is taken to hand out no entry twice before it is
  -- submitted.
  pub loop_close-tells :
      {st : System} {cqes : List Cqe}
      → System.Reach k h (record { loop = start; flights = [] }) st
      → (l : Lands st.flights cqes)
      → (loop : UringioLoop) (s : Process) (fd : ℕ) (sets base : Bool) (a : Ending)
      → loop.has_ring ≡ true
      → loop.wakeup_fd ≡ pos fd
      → HoldsWorld loop s st.loop.world
      → (loop' : UringioLoop) × (s' : Process) × (loop_close k true true (ending cqes sets) loop s
          ≡ some (true, futures_of l, loop', s'))
        × (s'.events ≡ closed (pos fd) ∷ shut_down ∷ s.events)
        × (loop_close k true base a loop' s' ≡ some (true, [], loop', s'))
        × (loop_dealloc k a loop' s' ≡ some ([], s'))
  unfolding loop_close close_ring after_shutdown loop_clear
  loop_close-tells {st} {cqes} r l loop s fd sets base a here fd_here world =
      let (store, t, e) = graceful_shutdown-tells k fresh h start v r l in
      let s₁ : Process = (after_shutdown (ending cqes sets) s (store, t, futures_of l)).1 in
      let loop' : UringioLoop =
        loop_clear (record loop { has_ring = false; registry = none; wakeup_fd = negsuc 0 }) in
      (
        loop',
        noting (closed (pos fd)) s₁,
        ap (λ b. close_ring k b true (ending cqes sets) loop s) here
            ∙ ap (λ o. o >>= λ shutdown. some (after_close loop shutdown))
                (shut-graceful k (ending cqes sets) loop s st.loop.world world
                  ∙ ap (λ o. o >>= λ shutdown. some (after_shutdown (ending cqes sets) s shutdown))
                      e)
            ∙ ap some (after_close-open fd loop s₁ (futures_of l) fd_here),
        refl,
        close-gone k base a loop' (noting (closed (pos fd)) s₁) (refl, refl),
        dealloc-gone k a loop' (noting (closed (pos fd)) s₁) (refl, refl),
      )

-- A loop that is made, and whose `__init__` does not run, closes the descriptor 0 when it is
-- deallocated, which it has not opened. The ring of zeros is taken to show no completion.
pub loop_dealloc-never_initialized :
    (k : Liburing) (size : ℕ) (makes : Cqe → Bool) (sets : Bool) (s : Process)
    → (loop : UringioLoop) × (s' : Process) × (new_loop true true
          (registry_new true true true size)
          s.python.store
        ≡ (some loop, s.python.store))
      × (loop_dealloc k (record { cqes = []; makes = makes; sets = sets }) loop s ≡ some ([], s'))
      × (s'.events ≡ shut_down ∷ closed (pos 0) ∷ s.events)
unfolding new_loop registry_new loop_dealloc dealloc_ring close_wakeup shut graceful_shutdown
    loop_clear after_shutdown
loop_dealloc-never_initialized k size makes sets s = (_, _, refl, refl, refl)
