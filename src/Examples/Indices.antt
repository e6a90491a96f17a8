-- ===== src/Examples/Indices.antt =====
-- The registry of buffer indices, and the dispatchers that take from it.
use puring.Base.{◌≡◌, refl, pos, true, arith}
use puring.BufferIndex.{FixedBufferIdxRegistry, get_buffer_idx, release_buffer_idx}
use puring.BufferIndex.Valid.{IsValid, Free, Takes, get_buffer_idx-Takes, release_buffer_idx-twice}
use puring.Registry.{oneshot}
use puring.Ops.Words.{u32}
use puring.Ops.Request.{read_fixed, write_fixed, send_zc_fixed}
use puring.Dispatch.{zero_copy}
use puring.Dispatch.Files.{read_dispatcher, write_dispatcher}
use puring.Dispatch.Sockets.{send_dispatcher}
use puring.Dispatch.Fixed.{Dispatched, dispatchers-Dispatched}
use puring.Examples.{ready, no_timeout, buffers, buffers-IsValid, store}

get_buffer_idx-Takes_example : Takes buffers (get_buffer_idx buffers).0 (get_buffer_idx buffers).1
get_buffer_idx-Takes_example = get_buffer_idx-Takes buffers 2 refl buffers-IsValid

-- The registry with its last index taken.
abbrev one_taken : FixedBufferIdxRegistry
one_taken = record buffers { top = pos 1 }

one_taken-IsValid : IsValid one_taken
one_taken-IsValid = record {
  small = omega arith;
  room = refl;
  low = refl;
  high = omega arith;
  distinct = λ i j p q. buffers-IsValid.distinct i j (omega arith) (omega arith);
  bounded = λ j p. buffers-IsValid.bounded j (omega arith);
}

two_is_taken : ¬ Free one_taken (pos 2)
two_is_taken (j, p, e) =
    let same = buffers-IsValid.distinct j 2 (omega arith) (omega arith) e in omega arith

-- The registry with two indices taken.
abbrev two_taken : FixedBufferIdxRegistry
two_taken = record buffers { top = pos 0 }

two_taken-IsValid : IsValid two_taken
two_taken-IsValid = record {
  small = omega arith;
  room = refl;
  low = refl;
  high = omega arith;
  distinct = λ i j p q. buffers-IsValid.distinct i j (omega arith) (omega arith);
  bounded = λ j p. buffers-IsValid.bounded j (omega arith);
}

release_buffer_idx-twice_example :
    let once = release_buffer_idx two_taken (pos 1) in
    let twice = release_buffer_idx once.1 (pos 1) in
    let first = get_buffer_idx twice.1 in
    (once.0 ≡ pos 0) × (twice.0 ≡ pos 0) × (first.0 ≡ pos 1) × ((get_buffer_idx first.1).0 ≡ pos 1)
release_buffer_idx-twice_example =
    release_buffer_idx-twice two_taken (pos 1) two_taken-IsValid (omega arith)

dispatchers-Dispatched_example :
    Dispatched ready store 60 7
      (pos 1)
      no_timeout
      (read_fixed (pos 3) 700 (u32 (pos 8)) (pos 0))
      (read_dispatcher ready (pos 3) 60 oneshot (pos 1) (pos 8) (pos 0) no_timeout store)
    × Dispatched ready store 60 7
        (pos 1)
        no_timeout
        (write_fixed (pos 3) 700 (u32 (pos 16)) (pos 0))
        (write_dispatcher ready (pos 3) 60 (pos 1) (pos 0) no_timeout store)
    × Dispatched ready store 60 7
        (pos 1)
        no_timeout
        (send_zc_fixed (pos 3) 700 16 true)
        (send_dispatcher ready (pos 3) 60 zero_copy (pos 1) true no_timeout store)
dispatchers-Dispatched_example =
    dispatchers-Dispatched ready store 60 7 (pos 1) no_timeout 2 refl refl buffers-IsValid refl
      (record { buffer = 700; len = 16 }) refl (pos 3) (pos 8) (pos 0) oneshot true
