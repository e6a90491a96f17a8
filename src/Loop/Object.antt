-- ===== src/Loop/Object.antt =====
-- src/python_api/loop/loop.c: the object of a loop, from its making to its end, and
-- src/python_api/signals/signals.c, which its making calls.
pub mod Stage
pub mod Life
pub mod Closes
use puring.Base.{
  ℕ, ℤ, pos, negsuc, is_neg, Option, none, some, Bool, true, false, not, ◌&&◌, List, [], ◌∷◌,
  if◌then◌else◌,
}
use puring.Uring.{Liburing, Trace, Prep, prepped, set_data, create_sqe}
use puring.Dispatch.{◌>>=◌}
use puring.Store.{Store}
use puring.Registry.{RequestRegistry, registry_new, registry_destroy}
use puring.Ring.{ring_init, ring_prep_wakeup_read}
use puring.Submit.{World}
use puring.Reader.{Cqe}
use puring.Context.{Variable, other_value, Python, Given, context_var_set, context_var_init}
use puring.Loop.Shutdown.{graceful_shutdown}

-- `UringioLoop`: whether `ring`, `readers`, `writers` and `execution_context_var` are not NULL, and
-- the other fields that its methods use.
pub record UringioLoop : Type 0 where
  pub has_ring : Bool
  pub registry : Option RequestRegistry
  pub wakeup_fd : ℤ
  pub has_readers : Bool
  pub has_writers : Bool
  pub has_context_var : Bool
  pub initialized : Bool

-- What happens to descriptors and to the ring.
pub data Event : Type 0 where
  opened closed : ℤ → Event
  shut_down : Event

-- The rest of the program, with the events so far, the latest first.
pub record Process : Type 0 where
  pub python : Python
  pub events : List Event

abbrev pub noting : Event → Process → Process
noting e s = record s { events = e ∷ s.events }

abbrev pub with_trace : Trace → Process → Process
with_trace t s = record s { python = record s.python { trace = t } }

-- What `tp_alloc` and `calloc` leave: fields of zeros, the descriptor among them.
abbrev pub zeroed : RequestRegistry → UringioLoop
zeroed registry = record {
  has_ring = true;
  registry = some registry;
  wakeup_fd = pos 0;
  has_readers = false;
  has_writers = false;
  has_context_var = false;
  initialized = false;
}

-- `UringioLoop_new` from the registry on: NULL, which gives the registry back, or the object.
unfoldable pub new_loop : Bool → Bool → Option RequestRegistry → Store → Option UringioLoop × Store
unfolding registry_destroy
new_loop object ring none s = (none, s)
new_loop false ring (some registry) s = (none, registry_destroy registry.slots s)
new_loop true false (some registry) s = (none, registry_destroy registry.slots s)
new_loop true true (some registry) s = (some (zeroed registry), s)

-- What the interpreter, the kernel and `malloc` answer to `UringioLoop_init`.
pub record Setup : Type 0 where
  -- whether `__init__` of the base class succeeds
  pub base : Bool
  -- the two ends of `pipe2`
  pub pipe_read : ℤ
  pub pipe_write : ℤ
  -- whether `signal` is imported and takes the descriptor, and the memory for `SignalsData`
  pub imports : Bool
  pub wakes : Bool
  pub signals_data : Option ℕ
  -- `eventfd`, and the address of `wakeup_buf`
  pub event_fd : ℤ
  pub wakeup_buf : ℕ
  pub context : Given

-- `POLLIN`
abbrev pub pollin : ℕ
pollin = 1

-- The end of `set_signals_handler`: without memory the entry stays as it is, and unsubmitted.
unfoldable pub signals_tag : Option ℕ → ℕ → Trace → ℤ × Trace
signals_tag none sqe t = (pos 0, t)
signals_tag (some address) sqe t = (pos 1, set_data sqe address ∷ t)

-- `none` is a write through the entry that is NULL.
unfoldable pub signals_entry : Setup → Option ℕ × Trace → Option (ℤ × Trace)
unfolding signals_tag
signals_entry g (none, t) = none
signals_entry g (some sqe, t) =
    some (signals_tag g.signals_data sqe (prepped sqe (Prep.poll_add g.pipe_read pollin) ∷ t))

abbrev pub Initialized : Type 0
Initialized = Option (Bool × UringioLoop × Process)

-- `Py_CLEAR` of the three objects that the loop owns.
unfoldable pub loop_clear : UringioLoop → UringioLoop
loop_clear loop = record loop { has_readers = false; has_writers = false; has_context_var = false }

-- `if (self->wakeup_fd >= 0) { close(self->wakeup_fd); self->wakeup_fd = -1; }`
unfoldable pub close_wakeup : ℤ → UringioLoop → Process → UringioLoop × Process
close_wakeup (negsuc n) loop s = (loop, s)
close_wakeup (pos fd) loop s = (record loop { wakeup_fd = negsuc 0 }, noting (closed (pos fd)) s)

-- The end of `UringioLoop_init`: what `ContextVar_init` has made.
unfoldable pub contextual : UringioLoop → Process → Bool × Python → Initialized
contextual loop s (false, p) = some (false, loop, record s { python = p })
contextual loop s (true, p) =
    some (true, record loop { has_context_var = true; initialized = true }, record s { python = p })

-- `if (ring_prep_wakeup_read(...) < 0)`
unfoldable pub wakeup_armed : Setup → UringioLoop → Process → ℤ × Trace → Initialized
unfolding contextual context_var_init
wakeup_armed g loop s (negsuc n, t) = some (false, loop, with_trace t s)
wakeup_armed g loop s (pos n, t) =
    let s' = with_trace t s in contextual loop s' (context_var_init g.context s'.python)

-- What a shutdown is told: the completions that come in, whether the exceptions can be made, and
-- whether the context variable takes another value.
pub record Ending : Type 0 where
  pub cqes : List Cqe
  pub makes : Cqe → Bool
  pub sets : Bool

-- `ContextVar_set(Py_None)`, whose failure is ignored.
abbrev pub reset_context : Option (Variable × Python) → Python → Python
reset_context none p = p
reset_context (some (token, p')) p = p'

-- The end of `graceful_shutdown` in the process.
unfoldable pub after_shutdown : Ending → Process → Store × Trace × List ℕ → List ℕ × Process
unfolding context_var_set
after_shutdown a s (store, t, futures) =
    let p = record s.python { store = store; trace = t } in
    (
      futures,
      noting shut_down
          (record s { python = reset_context (context_var_set a.sets other_value p) p }),
    )

abbrev pub Closed : Type 0
Closed = Bool × List ℕ × UringioLoop × Process

-- The end of `UringioLoop_close`.
unfoldable pub after_close : UringioLoop → List ℕ × Process → Closed
unfolding close_wakeup loop_clear
after_close loop (futures, s) =
    let (loop', s') =
      close_wakeup loop.wakeup_fd (record loop { has_ring = false; registry = none }) s in
    (true, futures, loop_clear loop', s')

module _ (k : Liburing) where
  -- `set_signals_handler`
  unfoldable pub set_signals_handler : Setup → Trace → Option (ℤ × Trace)
  unfolding signals_entry create_sqe
  set_signals_handler g t =
      if not (g.imports && g.wakes) then some (pos 0, t) else signals_entry g (create_sqe k t)

  -- `if (self->wakeup_fd < 0)`
  unfoldable pub event_fd_made : Setup → ℤ → UringioLoop → Process → Initialized
  unfolding wakeup_armed ring_prep_wakeup_read
  event_fd_made g (negsuc n) loop s = some (false, loop, s)
  event_fd_made g (pos fd) loop s =
      let s' = noting (opened (pos fd)) s in
      wakeup_armed g loop s' (ring_prep_wakeup_read k (pos fd) g.wakeup_buf s'.python.trace)

  -- `UringioLoop_init` from the result of `ring_init` on; that of `set_signals_handler` is ignored.
  unfoldable pub ring_made : Setup → UringioLoop → Process → ℤ × Trace → Initialized
  unfolding set_signals_handler event_fd_made
  ring_made g loop s (negsuc n, t) = some (false, loop, with_trace t s)
  ring_made g loop s (pos n, t) = do
    (result, t') ← set_signals_handler g t
    event_fd_made g g.event_fd
        (record loop { has_readers = true; has_writers = true; wakeup_fd = g.event_fd })
        (noting (opened g.pipe_write) (noting (opened g.pipe_read) (with_trace t' s)))

  -- `UringioLoop_init` from the result of the base class on. `none` is an access through NULL, here
  -- to a ring that is gone.
  unfoldable pub init_ring : (base has_ring : Bool) → Setup → UringioLoop → Process → Initialized
  unfolding ring_made ring_init
  init_ring false has_ring g loop s = some (false, loop, s)
  init_ring true false g loop s = none
  init_ring true true g loop s = ring_made g loop s (ring_init k s.python.trace)

  -- `UringioLoop_init`: whether it succeeds, the object, and the rest.
  unfoldable pub loop_init : Setup → UringioLoop → Process → Initialized
  unfolding init_ring
  loop_init g loop s = init_ring g.base loop.has_ring g loop s

  -- `graceful_shutdown` of the ring and the registry of the loop, with the reset of the context
  -- variable: the futures that are told, and the rest. `none` is a call of `abort`, or the use of a
  -- registry that is gone.
  unfoldable pub shut : Ending → Option RequestRegistry → Process → Option (List ℕ × Process)
  unfolding graceful_shutdown after_shutdown
  shut a none s = none
  shut a (some registry) s = do
    shutdown ←
        graceful_shutdown k a.makes a.cqes
          (record { registry = registry; store = s.python.store; trace = s.python.trace })
    some (after_shutdown a s shutdown)

  -- `UringioLoop_close` from `if (self->ring == NULL)` on; `base` says whether `close` of the base
  -- class succeeds.
  unfoldable pub close_ring :
      (has_ring base : Bool) → Ending → UringioLoop → Process → Option Closed
  unfolding shut after_close
  close_ring false base a loop s = some (true, [], loop, s)
  close_ring true false a loop s = some (false, [], loop, s)
  close_ring true true a loop s = do
    shutdown ← shut a loop.registry s
    some (after_close loop shutdown)

  -- `UringioLoop_close`, where `on_thread` is its guard: whether it succeeds, the futures that are
  -- told, the object and the rest.
  unfoldable pub loop_close :
      (on_thread base : Bool) → Ending → UringioLoop → Process → Option Closed
  unfolding close_ring
  loop_close on_thread base a loop s =
      if not on_thread then some (false, [], loop, s) else close_ring loop.has_ring base a loop s

  -- `if (self->ring)` of `UringioLoop_dealloc`
  unfoldable pub dealloc_ring : Bool → Ending → UringioLoop × Process → Option (List ℕ × Process)
  unfolding shut
  dealloc_ring true a (loop, s) = shut a loop.registry s
  dealloc_ring false a (loop, s) = some ([], s)

  -- `UringioLoop_dealloc`: the futures that are told, and the rest.
  unfoldable pub loop_dealloc : Ending → UringioLoop → Process → Option (List ℕ × Process)
  unfolding dealloc_ring close_wakeup loop_clear
  loop_dealloc a loop s =
      dealloc_ring loop.has_ring a (close_wakeup loop.wakeup_fd (loop_clear loop) s)

-- `UringioLoop_write_to_self` with what `write` answers and whether `errno` is `EAGAIN` then.
unfoldable pub write_to_self : ℤ → Bool → UringioLoop → Bool
write_to_self result again loop =
    if is_neg loop.wakeup_fd then false else if is_neg result && not again then false else true
