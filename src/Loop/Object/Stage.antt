-- ===== src/Loop/Object/Stage.antt =====
-- The stages of a loop, src/python_api/loop/loop.c: what its descriptor and its ring come to while it
-- runs and once it is closed, and that every step keeps these.
use puring.Base.{
  ℕ, ◌≡◌, refl, sym, ap, ◌∙◌, pos, negsuc, Option, none, some, Bool, true, false, List, ◌∷◌,
}
use puring.Uring.{Liburing, Trace}
use puring.Dispatch.{◌>>=◌}
use puring.Store.{Store}
use puring.Registry.{RequestRegistry}
use puring.Loop.Shutdown.{graceful_shutdown}
use puring.Loop.Object.{
  UringioLoop, Event, opened, closed, shut_down, Process, noting, Ending, after_shutdown,
  after_close, close_wakeup, loop_clear, shut, close_ring, loop_close,
}

-- The loop runs or has been closed; `events` are those before its descriptor was opened.
pub data Stage (fd : ℕ) (events : List Event) (loop : UringioLoop) (s : Process) : Type 0 where
  running :
      loop.has_ring ≡ true
      → loop.wakeup_fd ≡ pos fd
      → s.events ≡ opened (pos fd) ∷ events
      → Stage fd events loop s
  finished :
      loop.has_ring ≡ false
      → loop.wakeup_fd ≡ negsuc 0
      → s.events ≡ closed (pos fd) ∷ shut_down ∷ opened (pos fd) ∷ events
      → Stage fd events loop s

-- What happens to a loop: it is closed, or asked to; or anything that leaves its ring and its
-- descriptors alone, such as a request or a turn.
pub data Step (k : Liburing) (loop : UringioLoop) (s : Process)
    : UringioLoop → Process → Type 0 where
  closes :
      (on_thread base : Bool) (a : Ending) {done : Bool} {futures : List ℕ} {loop' : UringioLoop}
      {s' : Process}
      → loop_close k on_thread base a loop s ≡ some (done, futures, loop', s')
      → Step k loop s loop' s'
  meanwhile :
      (loop' : UringioLoop) (s' : Process)
      → loop'.has_ring ≡ loop.has_ring
      → loop'.wakeup_fd ≡ loop.wakeup_fd
      → s'.events ≡ s.events
      → Step k loop s loop' s'

pub data Reach (k : Liburing) (loop : UringioLoop) (s : Process)
    : UringioLoop → Process → Type 0 where
  start : Reach k loop s loop s
  next :
      {loop₁ loop₂ : UringioLoop} {s₁ s₂ : Process}
      → Reach k loop s loop₁ s₁
      → Step k loop₁ s₁ loop₂ s₂
      → Reach k loop s loop₂ s₂

-- A shutdown is one event.
pub shut-events :
    (k : Liburing) (a : Ending) (registry : Option RequestRegistry) (s : Process) {futures : List ℕ}
    {s' : Process}
    → shut k a registry s ≡ some (futures, s')
    → s'.events ≡ shut_down ∷ s.events
unfolding shut after_shutdown
shut-events k a none s h = absurd (cc)
shut-events k a (some registry) s {futures} {s'} h =
    after
      (graceful_shutdown k a.makes a.cqes
        (record { registry = registry; store = s.python.store; trace = s.python.trace }))
      h
  where
    after :
        (r : Option (Store × Trace × List ℕ))
        → (r >>= λ shutdown. some (after_shutdown a s shutdown)) ≡ some (futures, s')
        → s'.events ≡ shut_down ∷ s.events
    after none e = absurd (cc)
    after (some (store, t, told)) e = cc

-- The end of `UringioLoop_close` on a loop with a descriptor.
pub after_close-open :
    (fd : ℕ) (loop : UringioLoop) (s : Process) (futures : List ℕ)
    → loop.wakeup_fd ≡ pos fd
    → after_close loop (futures, s) ≡ (
      true,
      futures,
      loop_clear (record loop { has_ring = false; registry = none; wakeup_fd = negsuc 0 }),
      noting (closed (pos fd)) s,
    )
unfolding after_close close_wakeup
after_close-open fd loop s futures here =
    let loop₁ : UringioLoop = record loop { has_ring = false; registry = none } in
    ap (λ n. (true, futures, loop_clear (close_wakeup n loop₁ s).0, (close_wakeup n loop₁ s).1))
      here

module _ (k : Liburing) (fd : ℕ) (events : List Event) where
  -- What a loop that is closed is left with.
  closed-Stage :
      (loop : UringioLoop) (s : Process) (told : List ℕ) {done : Bool} {futures : List ℕ}
      {loop' : UringioLoop} {s' : Process}
      → loop.wakeup_fd ≡ pos fd
      → s.events ≡ shut_down ∷ opened (pos fd) ∷ events
      → after_close loop (told, s) ≡ (done, futures, loop', s')
      → Stage fd events loop' s'
  unfolding loop_clear
  closed-Stage loop s told {done} {futures} {loop'} {s'} here noted e =
      let e' = sym (after_close-open fd loop s told here) ∙ e in
      finished (ap (λ x. x.2.has_ring) (sym e')) (ap (λ x. x.2.wakeup_fd) (sym e'))
        (ap (λ x. x.3.events) (sym e') ∙ ap (◌∷◌ (closed (pos fd))) noted)

  -- `UringioLoop_close` of a loop that runs, from its shutdown on.
  shut-Stage :
      (a : Ending) (loop : UringioLoop) (s : Process) {done : Bool} {futures : List ℕ}
      {loop' : UringioLoop} {s' : Process}
      → loop.wakeup_fd ≡ pos fd
      → s.events ≡ opened (pos fd) ∷ events
      → (r : Option (List ℕ × Process)) → shut k a loop.registry s ≡ r
      → (r >>= λ shutdown. some (after_close loop shutdown)) ≡ some (done, futures, loop', s')
      → Stage fd events loop' s'
  shut-Stage a loop s here noted none e h = absurd (cc)
  shut-Stage a loop s {done} {futures} {loop'} {s'} here noted (some (told, s₁)) e h =
      let e' : after_close loop (told, s₁) ≡ (done, futures, loop', s') = cc in
      closed-Stage loop s₁ told here (shut-events k a loop.registry s e ∙ ap (◌∷◌ shut_down) noted)
        e'

  close_ring-Stage :
      (has_ring base : Bool) (a : Ending) (loop : UringioLoop) (s : Process) {done : Bool}
      {futures : List ℕ} {loop' : UringioLoop} {s' : Process}
      → loop.has_ring ≡ has_ring
      → close_ring k has_ring base a loop s ≡ some (done, futures, loop', s')
      → Stage fd events loop s
      → Stage fd events loop' s'
  unfolding close_ring
  close_ring-Stage false base a loop s {done} {futures} {loop'} {s'} ring h stage =
      let same : loop ≡ loop' = cc in let same' : s ≡ s' = cc in rw (← same, ← same') stage
  close_ring-Stage true false a loop s {done} {futures} {loop'} {s'} ring h stage =
      let same : loop ≡ loop' = cc in let same' : s ≡ s' = cc in rw (← same, ← same') stage
  close_ring-Stage true true a loop s ring h (running here fd_here noted) =
      shut-Stage a loop s fd_here noted (shut k a loop.registry s) refl h
  close_ring-Stage true true a loop s ring h (finished gone fd_gone noted) = absurd (cc)

  Step-Stage :
      {loop loop' : UringioLoop} {s s' : Process}
      → Step k loop s loop' s'
      → Stage fd events loop s
      → Stage fd events loop' s'
  unfolding loop_close
  Step-Stage {loop} {loop'} {s} {s'} (closes false base a h) stage =
      let same : loop ≡ loop' = cc in let same' : s ≡ s' = cc in rw (← same, ← same') stage
  Step-Stage {loop} {loop'} {s} {s'} (closes true base a h) stage =
      close_ring-Stage loop.has_ring base a loop s refl h stage
  Step-Stage (meanwhile loop' s' ring fd_same same) (running here fd_here noted) =
      running (ring ∙ here) (fd_same ∙ fd_here) (same ∙ noted)
  Step-Stage (meanwhile loop' s' ring fd_same same) (finished gone fd_gone noted) =
      finished (ring ∙ gone) (fd_same ∙ fd_gone) (same ∙ noted)

  pub Reach-Stage :
      {loop : UringioLoop} {s : Process} {loop' : UringioLoop} {s' : Process}
      → Reach k loop s loop' s'
      → Stage fd events loop s
      → Stage fd events loop' s'
  Reach-Stage start stage = stage
  Reach-Stage (next r step) stage = Step-Stage step (Reach-Stage r stage)
