-- ===== src/Reader/Complete.antt =====
-- The `switch` of `on_uring_ready` over the opcode of a request.
use puring.Base.{
  ℕ, ◌+◌, ◌*◌, ◌/◌, ◌^◌, ◌==◌, ℤ, pos, to_nat, is_zero, is_neg, Option, none, some, Bool, true,
  false, [], ◌∷◌, take, if◌then◌else◌,
}
use puring.Uring.{Liburing, Trace}
use puring.Buffers.{BufferPayload, PayloadType, payload_linear, is_fixed}
use puring.BufferIndex.{release_buffer_idx}
use puring.Store.{Store, Socket, update, free_payload?, free?}
use puring.Registry.{RequestSlot, StreamStrategy, oneshot, multishot, Opcode}
use puring.Registry
use puring.Dispatch.{◌>>=◌, linear_of, vector_of}
use puring.Ops.Sockets.{
  uringio_recvmsg_multishot, uringio_recvmsg_validate_multishot, is_resubmit_required,
}
use puring.Reader.{
  Cqe, Value, bytes, gathered, number, the_file, the_socket, no_value, print_error, Host,
  Completion, completed, skipped, gather,
}

-- `if (payload->mode == FIXED) release_buffer_idx(payload->idx_registry, payload->buf_idx)`
unfoldable pub release_fixed : ℕ → Store → Option Store
release_fixed p s =
    let payload = s.payloads p in
    if is_fixed payload.mode
    then (do
      idx_registry ← payload.idx_registry
      let (_, reg) = release_buffer_idx (s.indices idx_registry) payload.buf_idx
      some (record s { indices = update s.indices idx_registry reg }))
    else some s

-- The release, `free_buffer_payload(payload, force)`.
unfoldable pub drop_payload : Bool → ℕ → Store → Option Store
unfolding release_fixed
drop_payload force p s = do s' ← release_fixed p s; some (free_payload? (some p) force s')

-- `NULL`, or the object where it can be made.
abbrev pub made : Bool → Value → Option Value
made ok value = if ok then some value else none

-- The address in a pointer; that of NULL is 0.
abbrev address_of : Option ℕ → ℕ
address_of none = 0
address_of (some a) = a

abbrev pub is_linear : PayloadType → Bool
is_linear payload_linear = true
is_linear _ = false

module _ (k : Liburing) (h : Host) (cqe : Cqe) (index : ℤ) (slot : RequestSlot) where
  -- A completion that leaves the slot as it is.
  abbrev plain : Option Value → Store → Trace → Option Completion
  plain value s t = some (
      completed (record {
        value = value;
        clears_payload = false;
        clears_addr = false;
        store = s;
        trace = t;
        printed = [];
      }))

  -- One that has dealt with the payload.
  abbrev cleared : Option Value → Store → Trace → Option Completion
  cleared value s t = some (
      completed (record {
        value = value;
        clears_payload = true;
        clears_addr = false;
        store = s;
        trace = t;
        printed = [];
      }))

  abbrev numbered : Option Value
  numbered = made (h.makes cqe) (number cqe.res)

  unfoldable pub complete_read : Store → Trace → Option Completion
  unfolding drop_payload
  complete_read s t = do
    p ← slot.buffer_payload
    linear ← linear_of (s.payloads p)
    s' ← drop_payload false p s
    let value =
        if linear.buffer == 0
        then none
        else made (h.makes cqe) (bytes linear.buffer (to_nat cqe.res))
    cleared value s' t

  -- The bytes of the vectors of a payload.
  unfoldable pub gather_payload : BufferPayload → Option (Option Value)
  unfolding gather
  gather_payload payload =
      if h.makes cqe
      then (do
        vector ← vector_of payload
        some (some (gathered (gather (take vector.nr_vecs vector.iovecs) (to_nat cqe.res)))))
      else some none

  unfoldable pub complete_readv : Store → Trace → Option Completion
  unfolding gather_payload
  complete_readv s t = do
    p ← slot.buffer_payload
    value ← gather_payload (s.payloads p)
    cleared value (free_payload? (some p) false s) t

  unfoldable pub complete_write : Store → Trace → Option Completion
  unfolding drop_payload
  complete_write s t = do p ← slot.buffer_payload; s' ← drop_payload true p s; cleared numbered s' t

  unfoldable pub complete_writev : Store → Trace → Option Completion
  complete_writev s t = cleared numbered (free_payload? slot.buffer_payload false s) t

  unfoldable pub complete_open : Store → Trace → Option Completion
  complete_open s t = elim slot.file [
    | none ↦ plain none s t
    | some f ↦
        let s' = record s { files = update s.files f (record (s.files f) { fd = cqe.res }) } in
        plain (some (the_file f)) s' t
  ]

  unfoldable pub complete_socket : Store → Trace → Option Completion
  complete_socket s t = elim slot.socket [
    | none ↦ plain none s t
    | some o ↦
        let s' = record s {
          sockets = update s.sockets o (record (s.sockets o) { sock_fd = cqe.res });
        } in
        plain (some (the_socket o)) s' t
  ]

  -- BIND, CONNECT and LISTEN
  unfoldable pub complete_socket_call : Store → Trace → Option Completion
  complete_socket_call s t = elim slot.socket [
    | none ↦ plain none s t
    | some o ↦ plain numbered s t
  ]

  unfoldable pub complete_accept : Store → Trace → Option Completion
  complete_accept s t = elim slot.socket [
    | none ↦ plain none s t
    | some o ↦ elim (h.new_socket cqe) [
      | none ↦ some (skipped (free? slot.addr s) (print_error ∷ []))
      | some conn ↦
          let socket : Socket = record {
            sock_fd = cqe.res;
            closed = false;
            domain = (s.sockets o).domain;
            addr = slot.addr;
          } in
          cleared (some (the_socket conn))
            (record s { sockets = update s.sockets conn socket; refs = update s.refs conn 1 }) t
    ]
  ]

  -- The bytes that RECV answers; a negative `res` comes only with an expired timeout.
  unfoldable pub received : Bool → Bool → ℕ → Store → Option (Option Value)
  received true negative p s = some (made (h.makes cqe) (bytes 0 0))
  received false true p s = some none
  received false false p s = do
    linear ← linear_of (s.payloads p)
    some (made (h.makes cqe) (bytes linear.buffer (to_nat cqe.res)))

  unfoldable pub complete_recv : Store → Trace → Option Completion
  unfolding received drop_payload
  complete_recv s t = elim slot.socket [
    | none ↦ plain none s t
    | some o ↦ do
      p ← slot.buffer_payload
      value ← received (is_zero cqe.res) (is_neg cqe.res) p s
      s' ← drop_payload false p s
      cleared value s' t
  ]

  -- The multishot half of RECVMSG: the buffer that the kernel chose, and the request once more
  -- where the kernel has ended it.
  unfoldable pub complete_recvmsg_multishot : ℕ → Store → Trace → Option Completion
  complete_recvmsg_multishot p s t = do
    linear ← linear_of (s.payloads p)
    let bid = cqe.flags / 2 ^ h.buffer_shift
    let out =
        uringio_recvmsg_validate_multishot (h.validated (linear.buffer + bid * linear.len) cqe)
    t' ←
        if is_resubmit_required h.more_bit cqe.flags
        then (do
          o ← slot.socket
          some
              (uringio_recvmsg_multishot k index (s.sockets o).sock_fd (s.payloads p).bgid false
                (address_of slot.msghdr) (record { sec = pos 0; nsec = pos 0; is_required = false })
                t).1)
        else some t
    some (
        completed (record {
          value = made (h.makes cqe) (bytes out.payload out.payload_len);
          clears_payload = false;
          clears_addr = false;
          store = s;
          trace = t';
          printed = if out.is_null then print_error ∷ [] else [];
        }))

  -- The other half.
  unfoldable pub complete_recvmsg_oneshot : ℕ → Store → Trace → Option Completion
  unfolding gather_payload
  complete_recvmsg_oneshot p s t =
      if is_linear (s.payloads p).payload_type
      then (do
        linear ← linear_of (s.payloads p)
        some (
            completed (record {
              value = made (h.makes cqe) (bytes linear.buffer (to_nat cqe.res));
              clears_payload = true;
              clears_addr = true;
              store = free_payload? (some p) false (free? slot.addr s);
              trace = t;
              printed = [];
            })))
      else (do
        value ← gather_payload (s.payloads p)
        cleared value (free_payload? (some p) false s) t)

  unfoldable pub by_stream : StreamStrategy → ℕ → Store → Trace → Option Completion
  unfolding complete_recvmsg_multishot complete_recvmsg_oneshot
  by_stream multishot = complete_recvmsg_multishot
  by_stream oneshot = complete_recvmsg_oneshot

  unfoldable pub complete_recvmsg : Store → Trace → Option Completion
  unfolding release_fixed by_stream
  complete_recvmsg s t = do
    p ← slot.buffer_payload
    s' ← release_fixed p s
    by_stream slot.stream_strategy p s' t

  -- SEND and SENDMSG
  unfoldable pub complete_send : Store → Trace → Option Completion
  unfolding drop_payload
  complete_send s t = elim slot.buffer_payload [
    | none ↦ plain numbered s t
    | some p ↦ do s' ← drop_payload false p s; cleared numbered s' t
  ]

  unfoldable pub complete_close : Store → Trace → Option Completion
  complete_close s t = elim slot.socket [
    | some o ↦
        let socket = record (s.sockets o) { closed = true } in
        plain numbered (record s { sockets = update s.sockets o socket }) t
    | none ↦ elim slot.file [
      | none ↦ plain none s t
      | some f ↦
          let file = record (s.files f) { closed = true } in
          plain numbered (record s { files = update s.files f file }) t
    ]
  ]

  unfoldable pub complete : Opcode → Store → Trace → Option Completion
  unfolding complete_read complete_readv complete_write complete_writev complete_open
      complete_socket complete_socket_call complete_accept complete_recv complete_recvmsg
      complete_send complete_close
  complete Registry.read = complete_read
  complete Registry.readv = complete_readv
  complete Registry.write = complete_write
  complete Registry.writev = complete_writev
  complete Registry.openat2 = complete_open
  complete Registry.socket = complete_socket
  complete Registry.bind = complete_socket_call
  complete Registry.connect = complete_socket_call
  complete Registry.listen = complete_socket_call
  complete Registry.accept = complete_accept
  complete Registry.recv = complete_recv
  complete Registry.recvmsg = complete_recvmsg
  complete Registry.send = complete_send
  complete Registry.sendmsg = complete_send
  complete Registry.close = complete_close
  complete Registry.timeout = plain (some no_value)
  complete _ = plain numbered
