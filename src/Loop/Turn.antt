-- ===== src/Loop/Turn.antt =====
-- src/python_api/loop/loop.c: `UringioLoop_run_once`, a turn of the loop.
use puring.Base.{ℕ, ◌≡◌, ap, ◌∙◌, Option, none, some, Bool, true, false, List}
use puring.Uring.{Liburing, submit_and_wait}
use puring.Dispatch.{◌>>=◌}
use puring.Registry.{RequestRegistry}
use puring.Reader.{Cqe, Host, Event}
use puring.Reader.Step.{Loop, on_uring_ready}
use puring.Loop.{Doubles, PyLoop, Pop, Callbacks, compute_timeout, promote_scheduled, drain_ready}
use puring.Loop.Object.{UringioLoop, Process}
use puring.Loop.Due.{Promoted, PopsRoot, promote_scheduled-Promoted}
use puring.Loop.Drain.{in_turn, drain_ready-in_turn}

-- What a turn changes: the object, the rest of the process, and what the reader has told futures.
pub record State : Type 0 where
  pub loop : UringioLoop
  pub process : Process
  pub told : List Event

-- What the reader sees of it, with the registry of the loop.
abbrev pub read_from : State → RequestRegistry → Loop
read_from s registry = record {
  world = record {
    registry = registry;
    store = s.process.python.store;
    trace = s.process.python.trace;
  };
  events = s.told;
}

abbrev pub read_into : State → Loop → State
read_into s st = record {
  loop = record s.loop { registry = some st.world.registry };
  process = record s.process {
    python = record s.process.python { store = st.world.store; trace = st.world.trace };
  };
  told = st.events;
}

-- The state, the timers and the ready handles that the turn leaves, and the handles that it has run;
-- `raised` is the exception of a turn on another thread.
pub data Turn : Type 0 where
  raised : Turn
  turned : (s : State) (scheduled ready ran : List ℕ) → Turn

-- The attributes of the Python loop, and what its handles do, depend on the state.
module _ (D : Doubles) (k : Liburing) (h : Host) (heappop : Pop) (c : Callbacks State)
    (attributes : State → PyLoop D) where
  -- `promote_scheduled(self); drain_ready(self);`
  unfoldable pub run_handles : State → Turn
  unfolding promote_scheduled drain_ready
  run_handles s =
      let (scheduled, ready) = promote_scheduled D heappop (attributes s) in
      let (s', ready', ran) = drain_ready c ready s in turned s' scheduled ready' ran

  -- `on_uring_ready(self)` and what follows. `none` is a call of `abort`, or the use of a registry
  -- that is gone.
  unfoldable pub read_ready : List Cqe → Option RequestRegistry → State → Option Turn
  unfolding on_uring_ready run_handles
  read_ready cqes none s = none
  read_ready cqes (some registry) s = do
    st ← on_uring_ready k h cqes (read_from s registry)
    some (run_handles (read_into s st))

  -- The wait, for the time of `compute_timeout`.
  abbrev pub waiting : State → State
  waiting s =
      let (sec, nsec) = compute_timeout D (attributes s) in
      record s {
        process = record s.process {
          python = record s.process.python {
            trace =
                (submit_and_wait k (record { tv_sec = sec; tv_nsec = nsec })
                  s.process.python.trace).1;
          };
        };
      }

  -- `UringioLoop_run_once`, where the completions `cqes` have come in.
  unfoldable pub run_once : (on_thread has_ring : Bool) → List Cqe → State → Option Turn
  unfolding read_ready compute_timeout submit_and_wait
  run_once false has_ring cqes s = some raised
  run_once true false cqes s = none
  run_once true true cqes s = read_ready cqes s.loop.registry (waiting s)

  -- A turn on the thread of a loop that has its ring and its registry waits, hands the completions to
  -- the reader, and then, where the reader does not call `abort` and the attributes of the loop and the
  -- clock can be read, runs the handles that are ready by then, followed by the timers that are due,
  -- in that their time is not at or after the end of the turn, which a NaN is not either, each once
  -- and in order, unless they have been cancelled when their turn comes. What they make ready is
  -- left for the next turn. `heappop` is taken to take off the root of the heap.
  pub run_once-in_turn :
      (s : State) (cqes : List Cqe) (registry : RequestRegistry) (st : Loop)
      (time resolution : D.Double)
      → s.loop.registry ≡ some registry
      → on_uring_ready k h cqes (read_from (waiting s) registry) ≡ some st
      → (loop : PyLoop D) → attributes (read_into (waiting s) st) ≡ loop
      → loop.readable ≡ true
      → loop.time ≡ some time
      → loop.clock_resolution ≡ some resolution
      → PopsRoot D heappop loop.when (D.plus time resolution)
      → (scheduled ready : List ℕ) × Promoted D heappop loop.when
          (D.plus time resolution)
          loop.scheduled
          loop.ready
          scheduled
          ready
        × (let (end, left, ran) = in_turn c ready (read_into (waiting s) st) in
            run_once true true cqes s ≡ some (turned end scheduled left ran))
  unfolding run_once read_ready run_handles
  run_once-in_turn s cqes registry st time resolution here read loop is_loop readable now clock
        pops =
      let s' = read_into (waiting s) st in
      let p = promote_scheduled D heappop loop in
      (
        p.0,
        p.1,
        promote_scheduled-Promoted D heappop loop time resolution readable now clock pops,
        ap (λ o. read_ready cqes o (waiting s)) here
            ∙ ap (λ o. o >>= λ st. some (run_handles (read_into (waiting s) st))) read
            ∙ ap
                (λ l.
                  let p = promote_scheduled D heappop l in
                  let (end, left, ran) = drain_ready c p.1 s' in some (turned end p.0 left ran))
                is_loop
            ∙ ap (λ r. some (turned r.0 p.0 r.1 r.2)) (drain_ready-in_turn c p.1 s'),
      )
