-- ===== src/Examples/Turns.antt =====
-- A turn of a loop with an fsync in flight, which completes in it.
use puring.Base.{
  ℕ, ◌≡◌, refl, ap, ◌==◌, arith, to_signed_of_lt, pos, Option, some, none, true, List, [], ◌∷◌,
  length, if◌then◌else◌,
}
use puring.Registry.{registry_get, registry_remove}
use puring.Reader.Complete.{complete}
use puring.Reader.Step.{
  Loop, on_uring_ready, on_cqe, on_found, on_slot, handle, settle, finish, ended,
}
use puring.Loop.{PyLoop, Callbacks}
use puring.Loop.Due.{Promoted}
use puring.Loop.Drain.{in_turn}
use puring.Loop.Object.{opened, noting}
use puring.Loop.Turn.{State, read_from, read_into, turned, waiting, run_once, run_once-in_turn}
use puring.Examples.{ready, host, completion}
use puring.Examples.Ends.{in_flight, busy}
use puring.Examples.Flights.{idle, flying}
use puring.Examples.Loops.{seconds, turn, pop}

abbrev state : State
state = record { loop = in_flight; process = busy; told = [] }

-- The handle 1 opens a descriptor and appends the handle 9; the handle 2 is cancelled.
abbrev handles : Callbacks State
handles = record {
  is_cancelled = λ s handle. some (handle == 2);
  run = λ handle s. (
    record s { process = noting (opened (pos handle)) s.process },
    if handle == 1 then 9 ∷ [] else [],
  );
}

-- At 100, with timers at 100 and 160, and the handle 2 is ready once a future has its result.
abbrev looped : State → PyLoop seconds
looped s = record turn { ready = if length s.told == 1 then 2 ∷ [] else [] }

abbrev found : Option Loop → Loop
found none = idle
found (some st) = st

-- What the reader leaves.
abbrev after_read : Loop
after_read = found (
    on_uring_ready ready host (completion (pos 0) ∷ [])
      (read_from (waiting seconds ready host pop handles looped state) flying.loop.world.registry))

reads :
    on_uring_ready ready host
      (completion (pos 0) ∷ [])
      (read_from (waiting seconds ready host pop handles looped state) flying.loop.world.registry)
    ≡ some after_read
unfolding on_uring_ready on_cqe on_found on_slot handle settle finish ended complete registry_get
    registry_remove
reads =
    rw (to_signed_of_lt 1 (omega arith), to_signed_of_lt 2 (omega arith))
      (rw (to_signed_of_lt 2 (omega arith)) refl)

told_one : length after_read.events ≡ 1
unfolding on_uring_ready on_cqe on_found on_slot handle settle finish ended complete registry_get
    registry_remove
told_one =
    rw (to_signed_of_lt 1 (omega arith), to_signed_of_lt 2 (omega arith))
      (rw (to_signed_of_lt 2 (omega arith)) refl)

run_once-in_turn_example :
    (scheduled due : List ℕ) × Promoted seconds pop turn.when 101
      (1 ∷ 2 ∷ [])
      (2 ∷ [])
      scheduled
      due
    × (let (end, left, ran) =
          in_turn handles due
            (read_into (waiting seconds ready host pop handles looped state) after_read) in
        run_once seconds ready host pop handles looped true true (completion (pos 0) ∷ []) state
        ≡ some (turned end scheduled left ran))
run_once-in_turn_example =
    run_once-in_turn seconds ready host pop handles looped state (completion (pos 0) ∷ [])
      flying.loop.world.registry after_read 100 1 refl reads (record turn { ready = 2 ∷ [] })
      (ap (λ n. record turn { ready = if n == 1 then 2 ∷ [] else [] }) told_one) refl refl refl
      (λ handle handles popped rest found. (cc, let same : rest ≡ handles = cc in ap length same))
