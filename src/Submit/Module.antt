-- ===== src/Submit/Module.antt =====
-- The functions of the module that make an object: `Uringio_open` of files/files.c and
-- `Uringio_prep_socket` of sockets/sockets.c.
use puring.Base.{ℕ, ℤ, pos, negsuc, ltb_ℤ, Option, none, some, Bool, not, ◌||◌, if◌then◌else◌}
use puring.Uring.{Liburing}
use puring.Timer.{TimeoutParams}
use puring.Store.{Store, update, incref, decref}
use puring.Registry.{oneshot}
use puring.Registry
use puring.Ops.Words.{eqb_ℤ}
use puring.Ops.Files.{open_file}
use puring.Ops.Sockets.{prep_socket}
use puring.Submit.{
  Failure, no_loop, bad_arguments, sqe_not_available, submission_failed, refused, World, Run, Tail,
  socket_failure, submit,
}
use puring.Submit.Guards.{Situation, on_loop, with_future}
use puring.Submit.Files.{file_entry}
use puring.Submit.Sockets.{socket_entry, with_memory}

-- `ASSERT_LOOP_IS_URINGIO`, the guards on the loop, and the allocation of the object.
unfoldable pub with_object : Bool → Situation → Option ℕ → World → (ℕ → Run) → Run
unfolding on_loop with_memory
with_object is_uringio c object w next =
    if not is_uringio then some (refused no_loop, w) else on_loop c w (with_memory object w next)

-- The parsing of the arguments, once there is an object, in the state with the object.
unfoldable pub parsed_for : Situation → ℕ → World → Run → Run
parsed_for c object w next =
    if not c.parsed
    then some (refused bad_arguments, record w { store = decref object w.store })
    else next

-- A new object gives up its own reference and that of the future where it is refused.
abbrev pub object_tail : (ℤ → Bool) → (ℤ → Failure) → ℕ → ℕ → Tail
object_tail fails failure object future = record {
  fails = fails;
  failure = failure;
  on_full = λ s. decref future (decref object s);
  on_failure = λ s. decref future (decref object s);
  afterwards = λ s. s;
}

-- `result == -1` and `result == 0`
abbrev pub open_fails : ℤ → Bool
open_fails result = eqb_ℤ result (negsuc 0) || eqb_ℤ result (pos 0)

abbrev pub open_failure : ℤ → Failure
open_failure result = if eqb_ℤ result (negsuc 0) then sqe_not_available else submission_failed

-- A new file has one reference, takes one of the loop, and has no descriptor yet. Its end, which is
-- `file_dealloc`, gives that of the loop back.
abbrev pub new_file : ℕ → ℕ → ℤ → Store → Store
new_file loop file fd s = incref loop (record s {
  refs = update s.refs file 1;
  files = update s.files file (record { fd = fd; closed = Bool.false });
})

abbrev pub new_socket : ℕ → ℕ → ℤ → ℤ → Store → Store
new_socket loop sock fd domain s = incref loop (record s {
  refs = update s.refs sock 1;
  sockets =
      update s.sockets sock
        (record { sock_fd = fd; closed = Bool.false; domain = domain; addr = none });
})

module _ (k : Liburing) (is_uringio : Bool) (c : Situation) (object : Option ℕ) (loop : ℕ)
    (tp : TimeoutParams) where
  -- `Uringio_open`; `fd` is what the memory of the file holds, and `path` may be missing in the
  -- situation as an argument that cannot be parsed.
  unfoldable pub module_open : ℤ → ℤ → ℕ → ℤ → ℤ → ℕ → World → Run
  unfolding with_object parsed_for with_future
  module_open fd dfd path flags resolve mode w = with_object is_uringio c object w λ file.
      let w₁ = record w { store = new_file loop file fd w.store } in
      parsed_for c file w₁ (
        with_future c.future (decref file) w₁ λ future.
          submit (object_tail open_fails open_failure file future)
            (file_entry future none oneshot Registry.openat2 file)
            (λ i s. some (open_file k i dfd path flags resolve mode tp, s)) w₁)

  -- `Uringio_prep_socket`; `fd` is what the memory of the socket holds.
  unfoldable pub module_socket : ℤ → ℤ → ℤ → World → Run
  unfolding with_object parsed_for with_future
  module_socket fd domain socktype w = with_object is_uringio c object w λ sock.
      let w₁ = record w { store = new_socket loop sock fd domain w.store } in
      parsed_for c sock w₁ (
        with_future c.future (decref sock) w₁ λ future.
          submit (object_tail (λ result. ltb_ℤ result (pos 1)) socket_failure sock future)
            (socket_entry future none oneshot Registry.socket sock)
            (λ i s. some (prep_socket k i domain socktype tp, s)) w₁)
