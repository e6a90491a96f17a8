-- ===== src/Examples/Completions.antt =====
-- The reader on the completions of one request.
use puring.Base.{
  ◌≡◌, refl, sym, ◌⊎◌, pos, negsuc, to_unsigned, to_unsigned_of_lt, some, none, [], ◌∷◌, arith,
}
use puring.Uring.{wakeup_fd_tag}
use puring.Registry.Valid.{IsValid}
use puring.Registry.Add.{added, added-IsValid}
use puring.Reader.{Cqe, set_exception, gather}
use puring.Reader.Gather.{pieces_at, gather-take}
use puring.Reader.Step.{Loop, seen, on_cqe, on_uring_ready}
use puring.Reader.Invariant.{
  Settled, Turn, IsStuck, GetsStuck, on_cqe_lem, on_uring_ready_lem, on_cqe-wakeup,
}
use puring.Reader.Resolve.{on_cqe-fails}
use puring.Examples.{ready, host, completion, requests, requests-IsValid, store, entry}

-- The request of `entry` in slot 1.
abbrev start : Loop
start = record {
  world = record { registry = added requests entry store 1; store = store; trace = [] };
  events = [];
}

start-IsValid : IsValid start.world.registry
start-IsValid = added-IsValid requests entry store 1 refl requests-IsValid

tag_is : (completion (pos 0)).user_data ≡ to_unsigned 64 (pos 1)
tag_is = sym (to_unsigned_of_lt 1 (omega arith))

on_cqe_lem_example :
    IsStuck ready host (completion (pos 0)) start
    ⊎ Turn (completion (pos 0)) start (on_cqe ready host (completion (pos 0)) start)
on_cqe_lem_example = on_cqe_lem ready host (completion (pos 0)) start start-IsValid

on_uring_ready_lem_example :
    ((st' : Loop) × (on_uring_ready ready host (completion (pos 0) ∷ completion (pos 0) ∷ []) start
        ≡ some st')
      × IsValid st'.world.registry)
    ⊎ (GetsStuck ready host (completion (pos 0) ∷ completion (pos 0) ∷ []) start
        × (on_uring_ready ready host (completion (pos 0) ∷ completion (pos 0) ∷ []) start ≡ none))
on_uring_ready_lem_example =
    on_uring_ready_lem ready host (completion (pos 0) ∷ completion (pos 0) ∷ []) start start-IsValid

on_cqe-fails_example :
    (st' : Loop) × (on_cqe ready host (completion (negsuc 4)) start ≡ some st')
    × (st'.events ≡ set_exception 40 (pos 5) ∷ [])
    × Settled (completion (negsuc 4)) start st'
on_cqe-fails_example =
    on_cqe-fails ready host (completion (negsuc 4)) start start-IsValid 1 40 (omega arith) refl
      tag_is refl refl

gather-take_example :
    pieces_at
      (λ a. a)
      (gather
        (record { iov_base = 10; iov_len = 2 } ∷ record { iov_base = 20; iov_len = 3 } ∷ [])
        4)
    ≡ 10 ∷ 11 ∷ 20 ∷ 21 ∷ []
gather-take_example =
    gather-take (λ a. a)
      (record { iov_base = 10; iov_len = 2 } ∷ record { iov_base = 20; iov_len = 3 } ∷ []) 4

abbrev wakeup : Cqe
wakeup = record { user_data = wakeup_fd_tag; res = pos 8; flags = 0 }

on_cqe-wakeup_example : on_cqe ready host wakeup start ≡ some (seen wakeup start)
on_cqe-wakeup_example = on_cqe-wakeup ready host wakeup start refl
