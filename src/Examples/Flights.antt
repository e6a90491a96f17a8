-- ===== src/Examples/Flights.antt =====
-- An fsync on its way to the kernel and back.
use puring.Base.{◌≡◌, refl, sym, pos, to_unsigned_of_lt, arith, some, [], ◌∷◌, false}
use puring.Store.{decref}
use puring.Ops.Request.{fsync, perform}
use puring.Ops.Files.{uringio_fsync}
use puring.Uring.{create_sqe}
use puring.Timer.{sqe_with_optional_timeout, tag_and_submit, timeout}
use puring.Registry.{registry_add, slot_at}
use puring.Registry.Add.{added}
use puring.Submit.{accepted, file_failure, checked_tail, submit, run_request, check_result}
use puring.Submit.Outcome.{registered}
use puring.Submit.Answered.{the_future, checked_tail-Gives}
use puring.Reader.{Done, number, set_result, completed}
use puring.Reader.Complete.{complete}
use puring.Reader.Step.{Loop, on_cqe}
use puring.Reader.Invariant.{Settled}
use puring.System.Answers.{Reach-resolves}
use puring.System.{System, Call, Reach, start, next, submits, first}
use puring.System.Safe.{IsSafe, Reach-IsSafe}
use puring.Examples.{
  ready, ready-NoReuse, host, completion, no_timeout, requests, requests-IsValid, store, world,
  entry,
}

abbrev pub idle : Loop
idle = record { world = world; events = [] }

abbrev call_fsync : Call ready world
call_fsync = record {
  tail = checked_tail file_failure 40 (decref 40);
  entry = entry;
  op = λ i s. some (perform ready (fsync (pos 3)) i no_timeout, s);
  timeout = no_timeout;
  reqs = λ i. fsync (pos 3);
  after = λ i. registered entry store;
  lost = the_future 40;
  gives = checked_tail-Gives file_failure 40 (decref 40) (λ s x. refl);
  runs = λ i. refl;
  keeps = λ i x. refl;
  decides = λ i t. refl;
}

-- The state with the fsync in slot 1 in flight.
abbrev pub flying : System
flying = record {
  loop = record {
    world = record {
      registry = added requests entry store 1;
      store = registered entry store;
      trace = (perform ready (fsync (pos 3)) (pos 1) no_timeout []).1;
    };
    events = [];
  };
  flights = record { index = 1; future = 40 } ∷ [];
}

submitted :
    submit call_fsync.tail call_fsync.entry call_fsync.op world
    ≡ some (accepted 40, flying.loop.world)
unfolding submit run_request check_result registry_add perform uringio_fsync
    sqe_with_optional_timeout tag_and_submit create_sqe timeout
submitted = refl

pub reached : Reach ready host (record { loop = idle; flights = [] }) flying
unfolding registry_add
reached = next start (submits call_fsync [] submitted)

Reach-IsSafe_example : IsSafe flying
Reach-IsSafe_example = Reach-IsSafe ready ready-NoReuse host idle requests-IsValid reached

-- What the `switch` leaves of the fsync.
abbrev fsync_done : Done
fsync_done = record {
  value = some (number (pos 0));
  clears_payload = false;
  clears_addr = false;
  store = flying.loop.world.store;
  trace = flying.loop.world.trace;
  printed = [];
}

fsync_completes :
    complete ready host
      (completion (pos 0))
      (pos 1)
      (slot_at flying.loop.world.registry 1)
      (slot_at flying.loop.world.registry 1).opcode
      flying.loop.world.store
      flying.loop.world.trace
    ≡ some (completed fsync_done)
unfolding complete
fsync_completes = refl

Reach-resolves_example :
    (st' : Loop) × (on_cqe ready host (completion (pos 0)) flying.loop ≡ some st')
    × (st'.events ≡ set_result 40 (number (pos 0)) ∷ [])
    × Settled (completion (pos 0)) flying.loop st'
Reach-resolves_example =
    Reach-resolves ready ready-NoReuse host idle requests-IsValid reached
      (record { index = 1; future = 40 }) first (completion (pos 0))
      (sym (to_unsigned_of_lt 1 (omega arith))) fsync_done refl fsync_completes
