-- ===== src/Submit/Sockets.antt =====
-- src/python_api/ops/sockets/sockets.c: the methods of a socket but for those on messages, from the
-- guards on.
use puring.Base.{ℕ, ℤ, pos, Option, none, some, Bool, true, false, not, if◌then◌else◌}
use puring.Uring.{Liburing, Code}
use puring.Timer.{TimeoutParams}
use puring.Store.{Store, update, decref, free_payload?, free?}
use puring.Registry.{StreamStrategy, oneshot, Opcode, Entry}
use puring.Registry
use puring.Dispatch.{TransferMode}
use puring.Dispatch.Sockets.{accept_dispatcher, recv_dispatcher, send_dispatcher}
use puring.Ops.Sockets.{uringio_bind, uringio_connect, uringio_listen, uringio_close_socket}
use puring.Submit.{
  Failure, socket_closed, bad_arguments, no_memory, registry_full, body_exception, exception_group,
  unexplained, accepted, refused, World, Run, Tail, checked_tail, socket_failure, submit,
}
use puring.Submit.Guards.{Situation, guarded, with_future, with_payload}
use puring.Submit.Address.{Libc, serialize_address, get_socket_size, with_address}

-- The slot of a socket's request.
abbrev pub socket_entry : ℕ → Option ℕ → StreamStrategy → Opcode → ℕ → Entry
socket_entry future payload stream opcode sock = record {
  future = future;
  buffer_payload = payload;
  stream_strategy = stream;
  opcode = opcode;
  file = none;
  socket = some sock;
  addr = none;
  msghdr = none;
}

-- The tail of a method of a socket: on a full registry it frees the payload, if it has one, or the
-- memory of an address.
abbrev pub socket_tail : ℕ → (Store → Store) → Tail
socket_tail future release = checked_tail socket_failure future (λ s. release (decref future s))

-- `self->closed = ...`
abbrev pub set_closed : ℕ → Bool → Store → Store
set_closed sock closed s = record s {
  sockets = update s.sockets sock (record (s.sockets sock) { closed = closed });
}

-- The tail of the two methods that close a socket: a refused one is open again.
abbrev pub close_tail : ℕ → ℕ → Tail
close_tail future sock = record (socket_tail future (λ s. s)) { afterwards = set_closed sock false }

-- `if (!addrlen)`; the future is not released.
unfoldable pub with_memory : Option ℕ → World → (ℕ → Run) → Run
with_memory none w next = some (refused no_memory, w)
with_memory (some p) w next = next p

-- A pointer that may be NULL.
abbrev pub pointer : Option ℕ → ℕ
pointer none = 0
pointer (some p) = p

-- What `__aexit__` raises where the body has raised: the exception of the body, where closing has
-- set none, or a group of the two.
abbrev pub grouped : Failure → Failure
grouped registry_full = body_exception
grouped unexplained = body_exception
grouped _ = exception_group

unfoldable pub in_body : Bool → Run → Run
in_body false run = run
in_body true none = none
in_body true (some (accepted future, w)) = some (accepted future, w)
in_body true (some (refused x, w)) = some (refused (grouped x), w)

-- A method without a payload and an address.
unfoldable pub plain_method : Situation → ℕ → Opcode → (ℤ → ℤ → Code ℤ) → World → Run
unfolding guarded with_future
plain_method c sock opcode op w = guarded c socket_closed (w.store.sockets sock).closed w (
    with_future c.future (λ s. s) w
      λ future.
        submit (socket_tail future (λ s. s)) (socket_entry future none oneshot opcode sock)
          (λ i s. some (op i (w.store.sockets sock).sock_fd, s)) w)

-- A method with an address, which is freed once the operation has run.
unfoldable pub addressed_method :
    Liburing
    → Libc
    → Situation
    → ℕ
    → Opcode
    → (ℤ → ℤ → ℕ → ℕ → Code ℤ)
    → Option ℕ
    → Option ℕ
    → ℤ
    → World
    → Run
unfolding guarded with_future with_address
addressed_method k libc c sock opcode op given host port w =
    let domain = (w.store.sockets sock).domain in
    guarded c socket_closed (w.store.sockets sock).closed w (
      with_address (serialize_address k libc given host port domain w.store) w λ addr w₁.
        with_future c.future (free? (some addr)) w₁ λ future.
          submit (socket_tail future (free? (some addr)))
            (socket_entry future none oneshot opcode sock)
            (λ i s. some (
              op i (w.store.sockets sock).sock_fd addr (get_socket_size k libc domain),
              free? (some addr) s,
            ))
            w₁)

-- A method with a payload.
unfoldable pub transfer_method :
    Situation
    → ℕ
    → Opcode
    → StreamStrategy
    → (ℕ → ℤ → Store → Option (Code ℤ × Store))
    → World
    → Run
unfolding guarded with_future with_payload
transfer_method c sock opcode stream op w =
    guarded c socket_closed (w.store.sockets sock).closed w (
      with_payload c.payload (λ s. s) w
        λ payload. with_future c.future (free_payload? (some payload) false) w λ future.
          submit (socket_tail future (free_payload? (some payload) false))
            (socket_entry future (some payload) stream opcode sock) (op payload) w)

module _ (k : Liburing) (c : Situation) (sock : ℕ) (tp : TimeoutParams) where
  unfoldable pub socket_listen : ℤ → World → Run
  unfolding plain_method
  socket_listen backlog =
      plain_method c sock Registry.listen (λ i fd. uringio_listen k i fd backlog tp)

  unfoldable pub socket_bind : Libc → Option ℕ → Option ℕ → ℤ → World → Run
  unfolding addressed_method
  socket_bind libc =
      addressed_method k libc c sock Registry.bind
        (λ i fd addr addrlen. uringio_bind k i fd addr addrlen tp)

  unfoldable pub socket_connect : Libc → Option ℕ → Option ℕ → ℤ → World → Run
  unfolding addressed_method
  socket_connect libc =
      addressed_method k libc c sock Registry.connect
        (λ i fd addr addrlen. uringio_connect k i fd addr addrlen tp)

  -- `peer_addr` may be NULL, which is not checked.
  unfoldable pub socket_accept : StreamStrategy → Option ℕ → Option ℕ → World → Run
  unfolding guarded with_future with_memory
  socket_accept stream addrlen peer_addr w =
      guarded c socket_closed (w.store.sockets sock).closed w (
        with_future c.future (λ s. s) w
          λ future. with_memory addrlen w λ len.
            submit (socket_tail future (free? (some len)))
              (record (socket_entry future none stream Registry.accept sock) { addr = peer_addr })
              (λ i s. some (
                accept_dispatcher k (w.store.sockets sock).sock_fd stream i (pointer peer_addr) len
                    tp,
                s,
              ))
              w)

  -- What closing a socket does once it has its future.
  unfoldable pub closing : ℕ → World → Run
  closing future w =
      submit (close_tail future sock) (socket_entry future none oneshot Registry.close sock)
        (λ i s.
          some (uringio_close_socket k i (w.store.sockets sock).sock_fd tp, set_closed sock true s))
        w

  unfoldable pub socket_close : World → Run
  unfolding guarded with_future closing
  socket_close w =
      guarded c socket_closed (w.store.sockets sock).closed w
        (with_future c.future (λ s. s) w λ future. closing future w)

  unfoldable pub socket_send : TransferMode → Bool → World → Run
  unfolding transfer_method
  socket_send transfer_mode is_poll_first w =
      transfer_method c sock Registry.send oneshot
        (λ p i s.
          send_dispatcher k (w.store.sockets sock).sock_fd p transfer_mode i is_poll_first tp s)
        w

  unfoldable pub socket_recv : StreamStrategy → Bool → World → Run
  unfolding transfer_method
  socket_recv stream is_poll_first w =
      transfer_method c sock Registry.recv stream
        (λ p i s. recv_dispatcher k (w.store.sockets sock).sock_fd p stream i is_poll_first tp s) w

-- `TimeoutParams timeout_params = {0}`
abbrev pub zero_timeout : TimeoutParams
zero_timeout = record { sec = pos 0; nsec = pos 0; is_required = false }

-- `UringioSocket_aexit`: it asks neither for the thread nor whether the socket is closed.
unfoldable pub socket_aexit : Liburing → Situation → Bool → ℕ → World → Run
unfolding with_future closing in_body
socket_aexit k c had_exception sock w =
    if not c.parsed
    then some (refused bad_arguments, w)
    else in_body had_exception
        (with_future c.future (λ s. s) w λ future. closing k c sock zero_timeout future w)
