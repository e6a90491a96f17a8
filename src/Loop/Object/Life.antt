-- ===== src/Loop/Object/Life.antt =====
-- The life of a loop: what its descriptors and its ring come to, from `UringioLoop_init` to
-- `UringioLoop_dealloc`, whatever happens in between.
use puring.Base.{ℕ, ◌≡◌, ◌⊎◌, pos, List, ◌∷◌}
use puring.Loop.Object.{Event, opened, closed, shut_down, Setup}
use puring.Loop.Object.Stage.{Stage}

-- The pipe of the signals, which `UringioLoop_init` opens.
abbrev pub piped : Setup → List Event → List Event
piped g events = opened g.pipe_write ∷ opened g.pipe_read ∷ events

-- What a loop leaves behind: its descriptor is closed, and its ring shut down, in either order.
abbrev pub Ended : ℕ → List Event → List Event → Type 0
Ended fd before events =
    (events ≡ shut_down ∷ closed (pos fd) ∷ opened (pos fd) ∷ before)
    ⊎ (events ≡ closed (pos fd) ∷ shut_down ∷ opened (pos fd) ∷ before)
