-- ===== src/Examples/Ends.antt =====
-- The ends of a loop that has been closed, and of one with an fsync in flight, and a turn.
use puring.Base.{◌≡◌, refl, sym, pos, to_unsigned_of_lt, arith, some, true, [], ◌∷◌}
use puring.System.{first}
use puring.Loop.Shutdown.Flights.{lands, all_in}
use puring.Loop.Object.{
  UringioLoop, closed, shut_down, Process, Setup, zeroed, loop_close, loop_dealloc,
}
use puring.Loop.Object.Closes.{ending, loop_close-tells}
use puring.Examples.{ready, ready-NoReuse, host, completion, requests-IsValid}
use puring.Examples.Blocks.{python, given}
use puring.Examples.Flights.{idle, flying, reached}

abbrev process : Process
process = record { python = python; events = [] }

abbrev setup : Setup
setup = record {
  base = true;
  pipe_read = pos 5;
  pipe_write = pos 6;
  imports = true;
  wakes = true;
  signals_data = some 950;
  event_fd = pos 8;
  wakeup_buf = 960;
  context = given;
}

-- The loop with an fsync in flight.
abbrev pub in_flight : UringioLoop
in_flight = record (zeroed flying.loop.world.registry) { has_ring = true; wakeup_fd = pos 8 }

abbrev pub busy : Process
busy = record {
  python = record python { store = flying.loop.world.store; trace = flying.loop.world.trace };
  events = [];
}

-- Its future is told, and to close the loop twice and to deallocate it changes nothing.
loop_close-tells_example :
    (loop' : UringioLoop) × (s' : Process) × (loop_close ready true true
        (ending (completion (pos 0) ∷ []) true)
        in_flight
        busy
      ≡ some (true, 40 ∷ [], loop', s'))
    × (s'.events ≡ closed (pos 8) ∷ shut_down ∷ [])
    × (loop_close ready true true (ending [] true) loop' s' ≡ some (true, [], loop', s'))
    × (loop_dealloc ready (ending [] true) loop' s' ≡ some ([], s'))
loop_close-tells_example =
    loop_close-tells ready ready-NoReuse host idle requests-IsValid reached
      (lands (record { index = 1; future = 40 }) (completion (pos 0)) first
        (sym (to_unsigned_of_lt 1 (omega arith))) all_in)
      in_flight busy 8 true true (ending [] true) refl refl (refl, refl, refl)
