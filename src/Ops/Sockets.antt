-- ===== src/Ops/Sockets.antt =====
-- src/ops/sockets: sockets.c, fixed.c, buffer_select.c, zerocopy.c and multishot.c.
use puring.Base.{
  ℕ, ◌/◌, ◌%◌, ◌^◌, ◌==◌, ℤ, pos, negsuc, Option, none, some, Bool, true, false, not, ◌||◌,
  if◌then◌else◌,
}
use puring.Uring.{
  Liburing, Msghdr, Iovecs, single, array, Prep, prepped, or_flags, or_ioprio, set_buf_group,
  set_buf_index, Code, ◌>>◌, pure, call,
}
use puring.Timer.{TimeoutParams, sqe_with_optional_timeout, tag_and_submit}
use puring.Ops.Words.{u16, u32, eqb_ℤ}

-- A `struct msghdr` with no control data.
abbrev pub msghdr : ℕ → ℕ → Iovecs → ℕ → Msghdr
msghdr name namelen iov iovlen = record {
  name = name;
  namelen = namelen;
  iov = iov;
  iovlen = iovlen;
  control = 0;
  controllen = 0;
}

-- `RecvMsgMultishotResult`
pub record RecvMsgMultishotResult : Type 0 where
  pub payload : ℕ
  pub payload_len : ℕ
  pub is_null : Bool

-- `uringio_recvmsg_validate_multishot` of what `io_uring_recvmsg_validate` finds: NULL, or a message with
-- its payload and the length of that.
abbrev pub uringio_recvmsg_validate_multishot : Option (ℕ × ℕ) → RecvMsgMultishotResult
uringio_recvmsg_validate_multishot none = record { payload = 0; payload_len = 0; is_null = true }
uringio_recvmsg_validate_multishot (some (payload, payload_len)) = record {
  payload = payload;
  payload_len = payload_len;
  is_null = false;
}

-- `is_uringio_recvmsg_multishot_resubmit_required`, with the position of the bit `IORING_CQE_F_MORE`.
abbrev pub is_resubmit_required : ℕ → ℕ → Bool
is_resubmit_required more_bit flags = (flags / 2 ^ more_bit) % 2 == 0

module _ (k : Liburing) where
  -- `int flags = 0; if (is_poll_first) flags |= IORING_RECVSEND_POLL_FIRST;`
  abbrev pub poll_flags : Bool → ℕ
  poll_flags is_poll_first = if is_poll_first then k.recvsend_poll_first else 0

  -- An unsupported domain is refused only after the macro has taken an entry.
  unfoldable pub prep_socket : ℤ → ℤ → ℤ → TimeoutParams → Code ℤ
  unfolding sqe_with_optional_timeout tag_and_submit
  prep_socket request_idx domain type timeout_params =
      sqe_with_optional_timeout k (some timeout_params) λ sqe.
        if not (eqb_ℤ domain k.af_inet || eqb_ℤ domain k.af_inet6) then pure (negsuc 1) else do
          call (prepped sqe (Prep.socket domain type (pos 0) 0))
          tag_and_submit k sqe request_idx

  unfoldable pub uringio_bind : ℤ → ℤ → ℕ → ℕ → TimeoutParams → Code ℤ
  unfolding sqe_with_optional_timeout tag_and_submit
  uringio_bind request_idx fd addr addrlen timeout_params =
      sqe_with_optional_timeout k (some timeout_params)
        λ sqe. do call (prepped sqe (Prep.bind fd addr addrlen)); tag_and_submit k sqe request_idx

  unfoldable pub uringio_connect : ℤ → ℤ → ℕ → ℕ → TimeoutParams → Code ℤ
  unfolding sqe_with_optional_timeout tag_and_submit
  uringio_connect request_idx fd addr addrlen timeout_params =
      sqe_with_optional_timeout k (some timeout_params) λ sqe. do
        call (prepped sqe (Prep.connect fd addr addrlen))
        tag_and_submit k sqe request_idx

  unfoldable pub uringio_listen : ℤ → ℤ → ℤ → TimeoutParams → Code ℤ
  unfolding sqe_with_optional_timeout tag_and_submit
  uringio_listen request_idx fd backlog timeout_params =
      sqe_with_optional_timeout k (some timeout_params)
        λ sqe. do call (prepped sqe (Prep.listen fd backlog)); tag_and_submit k sqe request_idx

  unfoldable pub uringio_accept : ℤ → ℤ → ℕ → ℕ → ℤ → TimeoutParams → Code ℤ
  unfolding sqe_with_optional_timeout tag_and_submit
  uringio_accept request_idx sockfd addr len flags timeout_params =
      sqe_with_optional_timeout k (some timeout_params) λ sqe. do
        call (prepped sqe (Prep.accept sockfd addr len flags))
        tag_and_submit k sqe request_idx

  unfoldable pub uringio_close_socket : ℤ → ℤ → TimeoutParams → Code ℤ
  unfolding sqe_with_optional_timeout tag_and_submit
  uringio_close_socket request_idx sockfd timeout_params =
      sqe_with_optional_timeout k (some timeout_params)
        λ sqe. do call (prepped sqe (Prep.close sockfd)); tag_and_submit k sqe request_idx

  unfoldable pub uringio_send : ℤ → ℤ → ℕ → ℕ → Bool → TimeoutParams → Code ℤ
  unfolding sqe_with_optional_timeout tag_and_submit
  uringio_send request_idx sockfd buf len is_poll_first timeout_params =
      sqe_with_optional_timeout k (some timeout_params) λ sqe. do
        call (prepped sqe (Prep.send sockfd buf len (poll_flags is_poll_first)))
        tag_and_submit k sqe request_idx

  unfoldable pub uringio_recv : ℤ → ℤ → ℕ → ℕ → Bool → TimeoutParams → Code ℤ
  unfolding sqe_with_optional_timeout tag_and_submit
  uringio_recv request_idx sockfd buf len is_poll_first timeout_params =
      sqe_with_optional_timeout k (some timeout_params) λ sqe. do
        call (prepped sqe (Prep.recv sockfd buf len (poll_flags is_poll_first)))
        tag_and_submit k sqe request_idx

  unfoldable pub uringio_sendto : ℤ → ℤ → ℕ → ℕ → ℕ → ℕ → Bool → TimeoutParams → Code ℤ
  unfolding sqe_with_optional_timeout tag_and_submit
  uringio_sendto request_idx sockfd buf len addr addrlen is_poll_first timeout_params =
      sqe_with_optional_timeout k (some timeout_params) λ sqe. do
        call (
            prepped sqe
              (Prep.sendto sockfd buf len (poll_flags is_poll_first) addr (addrlen % 2 ^ 32)))
        tag_and_submit k sqe request_idx

  unfoldable pub uringio_recvfrom : ℤ → ℤ → ℕ → ℕ → ℕ → ℕ → Bool → TimeoutParams → Code ℤ
  unfolding sqe_with_optional_timeout tag_and_submit
  uringio_recvfrom request_idx sockfd buf len addr addrlen is_poll_first timeout_params =
      sqe_with_optional_timeout k (some timeout_params) λ sqe. do
        let msg = msghdr addr addrlen (single buf len) 1
        call (prepped sqe (Prep.recvmsg sockfd msg (poll_flags is_poll_first)))
        tag_and_submit k sqe request_idx

  unfoldable pub uringio_sendmsg : ℤ → ℤ → ℕ → ℕ → ℕ → ℕ → Bool → TimeoutParams → Code ℤ
  unfolding sqe_with_optional_timeout tag_and_submit
  uringio_sendmsg request_idx sockfd iovecs nr_vecs addr addrlen is_poll_first timeout_params =
      sqe_with_optional_timeout k (some timeout_params) λ sqe. do
        let msg = msghdr addr (addrlen % 2 ^ 32) (array iovecs) nr_vecs
        call (prepped sqe (Prep.sendmsg sockfd msg (poll_flags is_poll_first)))
        tag_and_submit k sqe request_idx

  unfoldable pub uringio_recvmsg : ℤ → ℤ → ℕ → ℕ → Bool → TimeoutParams → Code ℤ
  unfolding sqe_with_optional_timeout tag_and_submit
  uringio_recvmsg request_idx sockfd iovecs nr_vecs is_poll_first timeout_params =
      sqe_with_optional_timeout k (some timeout_params) λ sqe. do
        let msg = msghdr 0 0 (array iovecs) nr_vecs
        call (prepped sqe (Prep.recvmsg sockfd msg (poll_flags is_poll_first)))
        tag_and_submit k sqe request_idx

  unfoldable pub uringio_recv_fixed : ℤ → ℤ → ℕ → ℕ → Bool → ℤ → TimeoutParams → Code ℤ
  unfolding sqe_with_optional_timeout tag_and_submit
  uringio_recv_fixed request_idx sockfd buf len is_poll_first buf_index timeout_params =
      sqe_with_optional_timeout k (some timeout_params) λ sqe. do
        call (prepped sqe (Prep.recv sockfd buf len (poll_flags is_poll_first)))
        call (set_buf_index sqe (u16 buf_index))
        call (or_ioprio sqe k.recvsend_fixed_buf)
        tag_and_submit k sqe request_idx

  unfoldable pub uringio_recvmsg_fixed : ℤ → ℤ → ℕ → ℕ → Bool → ℤ → TimeoutParams → Code ℤ
  unfolding sqe_with_optional_timeout tag_and_submit
  uringio_recvmsg_fixed request_idx sockfd iovecs nr_vecs is_poll_first buf_index timeout_params =
      sqe_with_optional_timeout k (some timeout_params) λ sqe. do
        let msg = msghdr 0 0 (array iovecs) nr_vecs
        call (prepped sqe (Prep.recvmsg sockfd msg (poll_flags is_poll_first)))
        call (set_buf_index sqe (u16 buf_index))
        call (or_ioprio sqe k.recvsend_fixed_buf)
        tag_and_submit k sqe request_idx

  unfoldable pub uringio_recv_buffer_select : ℤ → ℤ → ℕ → ℤ → Bool → TimeoutParams → Code ℤ
  unfolding sqe_with_optional_timeout tag_and_submit
  uringio_recv_buffer_select request_idx sockfd len bgid is_poll_first timeout_params =
      sqe_with_optional_timeout k (some timeout_params) λ sqe. do
        call (prepped sqe (Prep.recv sockfd 0 len (poll_flags is_poll_first)))
        call (or_flags sqe k.iosqe_buffer_select)
        call (set_buf_group sqe (u16 bgid))
        tag_and_submit k sqe request_idx

  unfoldable pub uringio_recvmsg_buffer_select : ℤ → ℤ → Bool → ℤ → TimeoutParams → Code ℤ
  unfolding sqe_with_optional_timeout tag_and_submit
  uringio_recvmsg_buffer_select request_idx sockfd is_poll_first bgid timeout_params =
      sqe_with_optional_timeout k (some timeout_params) λ sqe. do
        call (prepped sqe (Prep.recvmsg sockfd (msghdr 0 0 (array 0) 0) (poll_flags is_poll_first)))
        call (or_flags sqe k.iosqe_buffer_select)
        call (set_buf_group sqe (u16 bgid))
        tag_and_submit k sqe request_idx

  unfoldable pub uringio_send_zc : ℤ → ℤ → ℕ → ℕ → Bool → TimeoutParams → Code ℤ
  unfolding sqe_with_optional_timeout tag_and_submit
  uringio_send_zc request_idx sockfd buf len is_poll_first timeout_params =
      sqe_with_optional_timeout k (some timeout_params) λ sqe. do
        call (prepped sqe (Prep.send_zc sockfd buf len (poll_flags is_poll_first) 0))
        tag_and_submit k sqe request_idx

  unfoldable pub uringio_send_zc_fixed : ℤ → ℤ → ℕ → ℕ → Bool → ℤ → TimeoutParams → Code ℤ
  unfolding sqe_with_optional_timeout tag_and_submit
  uringio_send_zc_fixed request_idx sockfd buf len is_poll_first buf_index timeout_params =
      sqe_with_optional_timeout k (some timeout_params) λ sqe. do
        call (
            prepped sqe
              (Prep.send_zc_fixed sockfd buf len (poll_flags is_poll_first) 0 (u32 buf_index)))
        tag_and_submit k sqe request_idx

  unfoldable pub uringio_sendmsg_zc : ℤ → ℤ → ℕ → ℕ → ℕ → ℕ → Bool → ℤ → TimeoutParams → Code ℤ
  unfolding sqe_with_optional_timeout tag_and_submit
  uringio_sendmsg_zc request_idx sockfd iovecs nr_vecs addr addrlen is_poll_first buf_index
        timeout_params =
      sqe_with_optional_timeout k (some timeout_params) λ sqe. do
        let msg = msghdr addr (addrlen % 2 ^ 32) (array iovecs) nr_vecs
        call (prepped sqe (Prep.sendmsg_zc sockfd msg (poll_flags is_poll_first)))
        call (set_buf_index sqe (u16 buf_index))
        call (or_ioprio sqe k.recvsend_fixed_buf)
        tag_and_submit k sqe request_idx

  unfoldable pub uringio_accept_multishot : ℤ → ℤ → ℕ → ℕ → ℤ → TimeoutParams → Code ℤ
  unfolding sqe_with_optional_timeout tag_and_submit
  uringio_accept_multishot request_idx sockfd addr len flags timeout_params =
      sqe_with_optional_timeout k (some timeout_params) λ sqe. do
        call (prepped sqe (Prep.multishot_accept sockfd addr len flags))
        tag_and_submit k sqe request_idx

  unfoldable pub uringio_recv_multishot : ℤ → ℤ → ℕ → ℤ → Bool → TimeoutParams → Code ℤ
  unfolding sqe_with_optional_timeout tag_and_submit
  uringio_recv_multishot request_idx sockfd len bgid is_poll_first timeout_params =
      sqe_with_optional_timeout k (some timeout_params) λ sqe. do
        call (prepped sqe (Prep.recv_multishot sockfd 0 len (poll_flags is_poll_first)))
        call (set_buf_group sqe (u16 bgid))
        call (or_flags sqe k.iosqe_buffer_select)
        tag_and_submit k sqe request_idx

  unfoldable pub uringio_recvmsg_multishot : ℤ → ℤ → ℤ → Bool → ℕ → TimeoutParams → Code ℤ
  unfolding sqe_with_optional_timeout tag_and_submit
  uringio_recvmsg_multishot request_idx sockfd bgid is_poll_first msghdr timeout_params =
      sqe_with_optional_timeout k (some timeout_params) λ sqe. do
        call (prepped sqe (Prep.recvmsg_multishot sockfd msghdr (poll_flags is_poll_first)))
        call (set_buf_group sqe (u16 bgid))
        call (or_flags sqe k.iosqe_buffer_select)
        tag_and_submit k sqe request_idx
