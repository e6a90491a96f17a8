-- ===== src/Examples/Methods.antt =====
-- The methods of files and sockets.
use puring.Base.{suc, ◌≡◌, refl, pos, none, some, true, false}
use puring.IndexStack.{free_count}
use puring.Store.{decref}
use puring.Registry.{oneshot, multishot}
use puring.Registry
use puring.Registry.Valid.{Free, IsValid}
use puring.Dispatch.Files.{read_dispatcher}
use puring.Ops.Words.{u32}
use puring.Ops.Request
use puring.Ops.Request.{fsync, perform}
use puring.Submit.{World, Answer, refused, sqe_not_available, file_failure, checked_tail, submit}
use puring.Submit.Groups.{
  Body, Interpreter, IsSettled, raise_file_exception_group, raise_socket_exception_group,
  raise_exception_group-IsSettled,
}
use puring.Submit.Guards.{Situation, IsReady}
use puring.Submit.Files.{file_entry, file_tail, file_close}
use puring.Submit.Address.{Libc, Serialized, serialize_address, serialize_address-Serialized}
use puring.Submit.Sockets.{socket_entry, socket_listen, socket_send}
use puring.Submit.Outcome.{Outcome, registered}
use puring.Submit.Finishes.{submit_lem}
use puring.Submit.Answered.{Answers, the_future, checked_tail-Gives}
use puring.Submit.Methods.{file_methods-Answers}
use puring.Submit.SocketMethods.{socket_methods-Answers}
use puring.Submit.Transfers.{transfer_methods-Answers}
use puring.Submit.Leak.{read-leaks}
use puring.Examples.{
  ready, ready-NoReuse, exhausted, exhausted-NoReuse, no_timeout, requests-IsValid, buffers-IsValid,
  store, world, entry, situation,
}

-- A C library that swaps nothing and reads every host as 127.
abbrev libc : Libc
libc = record {
  htons = λ port. port;
  inet_pton = λ family host. some 127;
  sizeof_sockaddr_in = 16;
  sizeof_sockaddr_in6 = 28;
}

-- A situation with the payload of `store` at 60.
abbrev with_buffers : Situation
with_buffers = record situation { payload = some 60 }

submit_lem_example :
    (answer : Answer) × (w' : World) × (submit
        (checked_tail file_failure 40 (decref 40))
        entry
        (λ i s. some (perform ready (fsync (pos 3)) i no_timeout, s))
        world
      ≡ some (answer, w'))
    × Outcome ready entry (λ i. fsync (pos 3)) (the_future 40) world w' answer
submit_lem_example =
    submit_lem ready ready-NoReuse (checked_tail file_failure 40 (decref 40)) entry
      (λ i s. some (perform ready (fsync (pos 3)) i no_timeout, s)) no_timeout world
      requests-IsValid (λ i. fsync (pos 3)) (λ i. registered entry world.store) (the_future 40)
      (checked_tail-Gives file_failure 40 (decref 40) (λ s x. refl)) (λ i. refl) (λ i x. refl)
      (λ i t. refl)

file_methods-Answers_example :
    Answers ready
      (IsReady situation false)
      (λ future. file_entry future none oneshot Registry.close 50)
      (λ i. Request.close_file (pos 3))
      the_future
      world
      (file_close ready situation 50 no_timeout world)
file_methods-Answers_example =
    (file_methods-Answers ready ready-NoReuse situation 50 no_timeout world requests-IsValid (pos 5)
      (pos 6) (pos 9) (pos 0) (pos 0) (pos 0)).0

socket_methods-Answers_example :
    Answers ready
      (IsReady situation false)
      (λ future. socket_entry future none oneshot Registry.listen 30)
      (λ i. Request.listen (pos 4) (pos 8))
      the_future
      world
      (socket_listen ready situation 30 no_timeout (pos 8) world)
socket_methods-Answers_example =
    (socket_methods-Answers ready ready-NoReuse situation 30 no_timeout world requests-IsValid libc
      (pos 8) (some 900) (some 910) (pos 80) multishot (some 920) (some 930)).0

transfer_methods-Answers_example :
    Answers ready
      (IsReady with_buffers false)
      (λ future. socket_entry future (some 60) oneshot Registry.send 30)
      (λ i. Request.send (pos 4) 700 (u32 (pos 16)) false)
      the_future
      world
      (socket_send ready with_buffers 30 no_timeout puring.Dispatch.normal_transfer false world)
transfer_methods-Answers_example =
    (transfer_methods-Answers ready ready-NoReuse with_buffers 30 no_timeout world requests-IsValid
      60 refl (record { buffer = 700; len = 16 }) refl refl libc (some 900) (some 940) (some 910)
      (pos 80) (pos 2) oneshot false).0

serialize_address-Serialized_example :
    Serialized ready libc
      (some 910)
      (pos 80)
      (pos 2)
      store
      (some 900)
      (serialize_address ready libc (some 900) (some 910) (pos 80) (pos 2) store)
serialize_address-Serialized_example =
    serialize_address-Serialized ready libc (pos 80) store (pos 2) (some 900) (some 910)

read-leaks_example :
    (w' : World) × (submit
        (file_tail 40 (some 60))
        (file_entry 40 (some 60) oneshot Registry.read 50)
        (λ i s. read_dispatcher exhausted (pos 3) 60 oneshot i (pos 16) (pos 0) no_timeout s)
        world
      ≡ some (refused sqe_not_available, w'))
    × IsValid w'.registry
    × Free w'.registry 1
    × (w'.registry.top ≡ pos 1)
    × (w'.registry.available_indices ≡ world.registry.available_indices)
    × (suc (free_count (w'.store.indices 7).top) ≡ 3)
read-leaks_example =
    read-leaks exhausted exhausted-NoReuse world requests-IsValid 1 refl 60 7 2
      (record { buffer = 700; len = 16 }) refl refl refl refl buffers-IsValid refl 40 50 oneshot
      (pos 3) (pos 16) (pos 0) no_timeout

-- The body of a block has raised, and so has closing, without a traceback; the group cannot be made.
abbrev body : Body
body = record { exc_type = 970; exc_val = 971; exc_tb = 972; has_tb = true }

abbrev no_group_made : Interpreter
no_group_made = record {
  fetched = some (record { close_type = 973; close_val = 974; close_tb = none });
  builtins = some 975;
  eg_type = some 976;
  exc_list = some 977;
  eg = none;
}

raise_exception_group-IsSettled_example :
    IsSettled body no_group_made (raise_file_exception_group body no_group_made)
    × IsSettled body no_group_made (raise_socket_exception_group body no_group_made)
raise_exception_group-IsSettled_example = raise_exception_group-IsSettled body no_group_made
