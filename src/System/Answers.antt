-- ===== src/System/Answers.antt =====
-- A request in flight gets its answer.
use puring.Base.{◌≡◌, pos, to_unsigned, some, false, List, [], ◌++◌}
use puring.Uring.{Liburing}
use puring.Uring.Queue.{NoReuse}
use puring.Registry.{slot_at}
use puring.Registry.Valid.{IsValid}
use puring.Reader.{Cqe, Host, Done, completed}
use puring.Reader.Complete.{complete}
use puring.Reader.Step.{Loop, is_failure, result_events, on_cqe}
use puring.Reader.Invariant.{Settled}
use puring.Reader.Resolve.{on_cqe-resolves}
use puring.System.{Flight, System, Takes, Reach}
use puring.System.Safe.{Holds, All-Takes, Reach-IsSafe}

module _ (k : Liburing) (fresh : NoReuse k) (h : Host) (loop : Loop)
    (v : IsValid loop.world.registry) where
  -- However requests and completions have been interleaved, from a valid registry with nothing in
  -- flight: the completion of a request in flight, of no error and with a completed `switch`, hands
  -- the result to the future that the method of that request has answered, and settles it. A
  -- request is in flight until a turn of the reader ends on a completion that carries its index, or
  -- longer where the turn leaves the registry as it is. The completions before may be any, in any
  -- number; liburing is taken to hand out no entry twice before it is submitted.
  pub Reach-resolves :
      {s : System}
      → Reach k h (record { loop = loop; flights = [] }) s
      → (x : Flight) {rest : List Flight} → Takes x s.flights rest
      → (cqe : Cqe) → cqe.user_data ≡ to_unsigned 64 (pos x.index)
      → (d : Done) → is_failure k h cqe (slot_at s.loop.world.registry x.index) ≡ false
      → complete k h cqe
          (pos x.index)
          (slot_at s.loop.world.registry x.index)
          (slot_at s.loop.world.registry x.index).opcode
          s.loop.world.store
          s.loop.world.trace
        ≡ some (completed d)
      → (st' : Loop) × (on_cqe k h cqe s.loop ≡ some st')
        × (st'.events ≡ s.loop.events ++ d.printed ++ result_events x.future d.value)
        × Settled cqe s.loop st'
  Reach-resolves {s} r x t cqe tag d runs made =
      let safe = Reach-IsSafe k fresh h loop v r in
      let ((inside, held), _) = All-Takes (Holds s.loop.world.registry) t safe.holds in
      on_cqe-resolves k h cqe s.loop safe.valid x.index x.future inside held tag d runs made
