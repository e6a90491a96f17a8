-- ===== src/Submit/Messages.antt =====
-- src/python_api/ops/sockets/sockets.c: the methods of a socket on messages, from the guards on.
use puring.Base.{ℕ, ℤ, pos, Option, none, some, Bool, false}
use puring.Uring.{Liburing, Code}
use puring.Timer.{TimeoutParams}
use puring.Store.{Store, free_payload?, free?}
use puring.Registry.{StreamStrategy, oneshot, Entry}
use puring.Registry
use puring.Dispatch.{TransferMode, ◌>>=◌, linear_of}
use puring.Dispatch.Sockets.{sendmsg_dispatcher, recvmsg_dispatcher}
use puring.Ops.Words.{u32}
use puring.Ops.Sockets.{uringio_sendto, uringio_recvfrom}
use puring.Submit.{socket_closed, no_memory, refused, World, Run, submit}
use puring.Submit.Guards.{Situation, guarded, with_future, with_payload}
use puring.Submit.Address.{Libc, serialize_address, get_socket_size, with_address}
use puring.Submit.Sockets.{socket_entry, socket_tail, pointer}

-- `if (host)`: the address of a message that need not have one.
unfoldable pub optional_address :
    Liburing → Libc → Option ℕ → Option ℕ → ℤ → ℤ → World → (Option ℕ → World → Run) → Run
unfolding serialize_address with_address
optional_address k libc given none port domain w next = next none w
optional_address k libc given (some host) port domain w next =
    with_address (serialize_address k libc given (some host) port domain w.store) w
      λ addr w₁. next (some addr) w₁

-- `addr ? _get_socket_size(domain) : 0`
abbrev pub optional_size : Liburing → Libc → Option ℕ → ℤ → ℕ
optional_size k libc none domain = 0
optional_size k libc (some addr) domain = get_socket_size k libc domain

-- `if (!msg)`, with what is released where there is no memory.
unfoldable pub with_message : Option ℕ → (Store → Store) → World → (ℕ → Run) → Run
with_message none release w next = some (refused no_memory, record w { store = release w.store })
with_message (some msg) release w next = next msg

module _ (k : Liburing) (c : Situation) (sock : ℕ) (tp : TimeoutParams) where
  -- `uringio_sendto` on the buffer of the payload, and the freeing of the address.
  unfoldable pub sendto_payload : ℤ → ℕ → ℕ → ℕ → Bool → ℤ → Store → Option (Code ℤ × Store)
  sendto_payload fd payload addr addrlen is_poll_first i s = do
    linear ← linear_of (s.payloads payload)
    some (
      uringio_sendto k i fd linear.buffer (u32 (pos linear.len)) addr addrlen is_poll_first tp,
      free? (some addr) s,
    )

  -- The payload is not put into the slot.
  unfoldable pub socket_sendto : Libc → Option ℕ → Option ℕ → ℤ → ℤ → Bool → World → Run
  unfolding guarded with_future with_payload with_address sendto_payload
  socket_sendto libc given host port domain is_poll_first w =
      guarded c socket_closed (w.store.sockets sock).closed w (
        with_address (serialize_address k libc given host port domain w.store) w λ addr w₁.
          with_payload c.payload (free? (some addr)) w₁ λ payload.
            with_future c.future (λ s. free_payload? (some payload) false (free? (some addr) s)) w₁
              λ future.
                submit
                  (socket_tail future
                    (λ s. free_payload? (some payload) false (free? (some addr) s)))
                  (socket_entry future none oneshot Registry.sendmsg sock)
                  (sendto_payload (w.store.sockets sock).sock_fd payload addr
                    (get_socket_size k libc domain) is_poll_first)
                  w₁)

  -- `uringio_recvfrom` on the buffer of the payload.
  unfoldable pub recvfrom_payload : ℤ → ℕ → ℕ → ℕ → Bool → ℤ → Store → Option (Code ℤ × Store)
  recvfrom_payload fd payload addr addrlen is_poll_first i s = do
    linear ← linear_of (s.payloads payload)
    some (uringio_recvfrom k i fd linear.buffer linear.len addr addrlen is_poll_first tp, s)

  -- The address and the message go into the slot.
  unfoldable pub socket_recvfrom :
      Libc → Option ℕ → Option ℕ → Option ℕ → ℤ → ℤ → Bool → World → Run
  unfolding guarded with_future with_payload with_address with_message recvfrom_payload
  socket_recvfrom libc given allocated host port domain is_poll_first w =
      guarded c socket_closed (w.store.sockets sock).closed w (
        with_address (serialize_address k libc given host port domain w.store) w λ addr w₁.
          with_payload c.payload (free? (some addr)) w₁ λ payload.
            with_message allocated (λ s. free? (some addr) (free_payload? (some payload) false s))
              w₁
              λ msg.
                with_future c.future
                  (λ s. free? (some msg) (free? (some addr) (free_payload? (some payload) false s)))
                  w₁
                  λ future.
                    submit
                      (socket_tail future (λ s.
                        free? (some msg)
                          (free? (some addr) (free_payload? (some payload) false s))))
                      (record (socket_entry future (some payload) oneshot Registry.recvmsg sock) {
                        addr = some addr;
                        msghdr = some msg;
                      })
                      (recvfrom_payload (w.store.sockets sock).sock_fd payload addr
                        (get_socket_size k libc domain) is_poll_first)
                      w₁)

  -- `sendmsg_dispatcher`, and the freeing of the address.
  unfoldable pub sendmsg_payload :
      ℤ → ℕ → TransferMode → Option ℕ → ℕ → Bool → ℤ → Store → Option (Code ℤ × Store)
  unfolding sendmsg_dispatcher
  sendmsg_payload fd payload transfer_mode addr addrlen is_poll_first i s = do
    (code, s') ←
        sendmsg_dispatcher k fd payload transfer_mode i (pointer addr) addrlen is_poll_first tp s
    some (code, free? addr s')

  -- Without a payload the address is not freed.
  unfoldable pub socket_sendmsg :
      Libc → Option ℕ → TransferMode → Option ℕ → ℤ → ℤ → Bool → World → Run
  unfolding guarded with_future with_payload optional_address sendmsg_payload
  socket_sendmsg libc given transfer_mode host port domain is_poll_first w =
      guarded c socket_closed (w.store.sockets sock).closed w (
        optional_address k libc given host port domain w λ addr w₁.
          with_payload c.payload (λ s. s) w₁
            λ payload.
              with_future c.future (λ s. free? addr (free_payload? (some payload) false s)) w₁
                λ future.
                  submit
                    (socket_tail future (λ s. free? addr (free_payload? (some payload) false s)))
                    (socket_entry future (some payload) oneshot Registry.sendmsg sock)
                    (sendmsg_payload (w.store.sockets sock).sock_fd payload transfer_mode addr
                      (optional_size k libc addr domain) is_poll_first)
                    w₁)

  -- The memory of the message may be NULL, which is not checked, and is not freed on a full
  -- registry.
  unfoldable pub socket_recvmsg : StreamStrategy → Option ℕ → Bool → World → Run
  unfolding guarded with_future with_payload recvmsg_dispatcher
  socket_recvmsg stream msghdr is_poll_first w =
      guarded c socket_closed (w.store.sockets sock).closed w (
        with_payload c.payload (λ s. s) w
          λ payload. with_future c.future (free_payload? (some payload) false) w λ future.
            submit (socket_tail future (free_payload? (some payload) false))
              (record (socket_entry future (some payload) stream Registry.recvmsg sock) {
                msghdr = msghdr;
              })
              (λ i s.
                recvmsg_dispatcher k (w.store.sockets sock).sock_fd payload stream i is_poll_first
                  (pointer msghdr) tp s)
              w)
