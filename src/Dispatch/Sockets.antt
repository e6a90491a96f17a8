-- ===== src/Dispatch/Sockets.antt =====
-- socket_ops_dispatcher.c: the operation of a socket by the mode of its payload, the kind of its
-- stream and the kind of its transfer. Each answers the operation to run, with the store.
use puring.Base.{ℕ, ℤ, pos, Option, some, Bool, if◌then◌else◌}
use puring.Uring.{Liburing, Code}
use puring.Timer.{TimeoutParams}
use puring.Buffers.{is_fixed, is_selecting}
use puring.Store.{Store}
use puring.Registry.{StreamStrategy, oneshot, multishot}
use puring.Ops.Words.{u32}
use puring.Ops.Sockets.{
  uringio_accept, uringio_accept_multishot, uringio_recv, uringio_recv_multishot,
  uringio_recv_buffer_select, uringio_recvmsg, uringio_recvmsg_multishot,
  uringio_recvmsg_buffer_select, uringio_send, uringio_send_zc, uringio_send_zc_fixed,
  uringio_sendmsg, uringio_sendmsg_zc,
}
use puring.Dispatch.{
  TransferMode, normal_transfer, zero_copy, ◌>>=◌, linear_of, vector_of, take_index,
}

module _ (k : Liburing) where
  unfoldable pub accept_dispatcher : ℤ → StreamStrategy → ℤ → ℕ → ℕ → TimeoutParams → Code ℤ
  accept_dispatcher fd multishot request_idx addr len tp =
      uringio_accept_multishot k request_idx fd addr len (pos 0) tp
  accept_dispatcher fd oneshot request_idx addr len tp =
      uringio_accept k request_idx fd addr len (pos 0) tp

  unfoldable recv_select : StreamStrategy → ℤ → ℤ → ℕ → ℤ → Bool → TimeoutParams → Code ℤ
  recv_select multishot request_idx fd len bgid is_poll_first tp =
      uringio_recv_multishot k request_idx fd len bgid is_poll_first tp
  recv_select oneshot request_idx fd len bgid is_poll_first tp =
      uringio_recv_buffer_select k request_idx fd len bgid is_poll_first tp

  unfoldable pub recv_dispatcher :
      ℤ → ℕ → StreamStrategy → ℤ → Bool → TimeoutParams → Store → Option (Code ℤ × Store)
  unfolding recv_select
  recv_dispatcher fd p stream request_idx is_poll_first tp s = do
    linear ← linear_of (s.payloads p)
    some (
      if is_selecting (s.payloads p).mode
          then recv_select stream request_idx fd linear.len (s.payloads p).bgid is_poll_first tp
          else uringio_recv k request_idx fd linear.buffer linear.len is_poll_first tp,
      s,
    )

  unfoldable recvmsg_select : StreamStrategy → ℤ → ℤ → ℤ → Bool → ℕ → TimeoutParams → Code ℤ
  recvmsg_select multishot request_idx fd bgid is_poll_first msghdr tp =
      uringio_recvmsg_multishot k request_idx fd bgid is_poll_first msghdr tp
  recvmsg_select oneshot request_idx fd bgid is_poll_first msghdr tp =
      uringio_recvmsg_buffer_select k request_idx fd is_poll_first bgid tp

  unfoldable pub recvmsg_dispatcher :
      ℤ → ℕ → StreamStrategy → ℤ → Bool → ℕ → TimeoutParams → Store → Option (Code ℤ × Store)
  unfolding recvmsg_select
  recvmsg_dispatcher fd p stream request_idx is_poll_first msghdr tp s =
      if is_selecting (s.payloads p).mode
      then some
          (recvmsg_select stream request_idx fd (s.payloads p).bgid is_poll_first msghdr tp, s)
      else (do
        vector ← vector_of (s.payloads p)
        some (
          uringio_recvmsg k request_idx fd vector.iovecs_address vector.nr_vecs is_poll_first tp,
          s,
        ))

  unfoldable pub send_dispatcher :
      ℤ → ℕ → TransferMode → ℤ → Bool → TimeoutParams → Store → Option (Code ℤ × Store)
  send_dispatcher fd p zero_copy request_idx is_poll_first tp s =
      if is_fixed (s.payloads p).mode
      then (do
        (buf_idx, s') ← take_index p s
        linear ← linear_of (s.payloads p)
        some (
          uringio_send_zc_fixed k request_idx fd linear.buffer linear.len is_poll_first buf_idx tp,
          s',
        ))
      else (do
        linear ← linear_of (s.payloads p)
        some (uringio_send_zc k request_idx fd linear.buffer linear.len is_poll_first tp, s))
  send_dispatcher fd p normal_transfer request_idx is_poll_first tp s = do
    linear ← linear_of (s.payloads p)
    some (uringio_send k request_idx fd linear.buffer (u32 (pos linear.len)) is_poll_first tp, s)

  unfoldable pub sendmsg_dispatcher :
      ℤ → ℕ → TransferMode → ℤ → ℕ → ℕ → Bool → TimeoutParams → Store → Option (Code ℤ × Store)
  sendmsg_dispatcher fd p zero_copy request_idx addr addrlen is_poll_first tp s = do
    (buf_idx, s') ← take_index p s
    vector ← vector_of (s.payloads p)
    some (
      uringio_sendmsg_zc k request_idx fd vector.iovecs_address vector.nr_vecs addr addrlen
          is_poll_first buf_idx tp,
      s',
    )
  sendmsg_dispatcher fd p normal_transfer request_idx addr addrlen is_poll_first tp s = do
    vector ← vector_of (s.payloads p)
    some (
      uringio_sendmsg k request_idx fd vector.iovecs_address vector.nr_vecs addr addrlen
          is_poll_first tp,
      s,
    )
