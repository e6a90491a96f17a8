-- ===== src/Ops/Conforms.antt =====
-- All operations of src/ops meet the specification of Ops/Contract.
use puring.Base.{ℕ, ℤ, pos, negsuc, Bool-cases, inl, inr, none, some, ◌||◌}
use puring.Uring.{
  Liburing, Prep, Trace, Code, ◌>>◌, pure, call, prepped, or_flags, or_ioprio, set_buf_group,
  set_buf_index,
}
use puring.Uring.Queue.{NoReuse}
use puring.Timer.{TimeoutParams, tag_and_submit, sqe_with_optional_timeout}
use puring.Ops.Words.{u16, eqb_ℤ}
use puring.Ops.Request.{Request, Draft, plain, selecting, registered, draft, perform}
use puring.Ops.Files.{
  open_file, uringio_read, uringio_readv, uringio_write, uringio_writev, uringio_close_file,
  uringio_fsync, uringio_fdatasync, uringio_splice, uringio_read_fixed, uringio_write_fixed,
  uringio_read_buffer_select, uringio_readv_buffer_select, uringio_read_multishot,
}
use puring.Ops.Sockets.{
  prep_socket, uringio_bind, uringio_connect, uringio_listen, uringio_accept, uringio_close_socket,
  uringio_send, uringio_recv, uringio_sendto, uringio_recvfrom, uringio_sendmsg, uringio_recvmsg,
  uringio_recv_fixed, uringio_recvmsg_fixed, uringio_recv_buffer_select,
  uringio_recvmsg_buffer_select, uringio_send_zc, uringio_send_zc_fixed, uringio_sendmsg_zc,
  uringio_accept_multishot, uringio_recv_multishot, uringio_recvmsg_multishot,
}
use puring.Ops.Bodies.{
  plain-Fills, selecting-Fills, selecting-Fills', registered-Fills, refused-Fills,
}
use puring.Ops.Refine.{Meets, macro-Meets}

module _ (k : Liburing) (fresh : NoReuse k) (i : ℤ) (tp : TimeoutParams) (t : Trace) where
  -- What is to be proved of an operation, with the code below its macro.
  abbrev Shape : Draft → (ℕ → Code ℤ) → Type 0
  Shape d body = Meets k (some d) i tp t (sqe_with_optional_timeout k (some tp) body t)

  plain-Meets : (r : Prep) → Shape (plain r) (λ sqe. call (prepped sqe r) >> tag_and_submit k sqe i)
  plain-Meets r =
      macro-Meets k fresh (some (plain r)) i tp t _
        (λ p link before rest u apart e. plain-Fills k p i link before rest u apart e r)

  selecting-Meets :
      (bgid : ℤ) (r : Prep)
      → Shape (selecting k bgid r) λ sqe.
        call (prepped sqe r)
        >> call (or_flags sqe k.iosqe_buffer_select)
        >> call (set_buf_group sqe (u16 bgid))
        >> tag_and_submit k sqe i
  selecting-Meets bgid r =
      macro-Meets k fresh (some (selecting k bgid r)) i tp t _
        (λ p link before rest u apart e. selecting-Fills k p i link before rest u apart e bgid r)

  selecting-Meets' :
      (bgid : ℤ) (r : Prep)
      → Shape (selecting k bgid r) λ sqe.
        call (prepped sqe r)
        >> call (set_buf_group sqe (u16 bgid))
        >> call (or_flags sqe k.iosqe_buffer_select)
        >> tag_and_submit k sqe i
  selecting-Meets' bgid r =
      macro-Meets k fresh (some (selecting k bgid r)) i tp t _
        (λ p link before rest u apart e. selecting-Fills' k p i link before rest u apart e bgid r)

  registered-Meets :
      (buf_index : ℤ) (r : Prep)
      → Shape (registered k buf_index r) λ sqe.
        call (prepped sqe r)
        >> call (set_buf_index sqe (u16 buf_index))
        >> call (or_ioprio sqe k.recvsend_fixed_buf)
        >> tag_and_submit k sqe i
  registered-Meets buf_index r =
      macro-Meets k fresh (some (registered k buf_index r)) i tp t _
        (λ p link before rest u apart e.
          registered-Fills k p i link before rest u apart e buf_index r)

  refused-Meets :
      Meets k none i tp t (sqe_with_optional_timeout k (some tp) (λ sqe. pure (negsuc 1)) t)
  refused-Meets =
      macro-Meets k fresh none i tp t _
        (λ p link before rest u apart e. refused-Fills k p i link before rest u apart e)

  prep_socket-Meets :
      (domain type : ℤ)
      → Meets k (draft k (Request.socket domain type)) i tp t (prep_socket k i domain type tp t)
  unfolding prep_socket draft
  prep_socket-Meets domain type =
      elim (Bool-cases (eqb_ℤ domain k.af_inet || eqb_ℤ domain k.af_inet6)) [
        | inl known ↦ rw known (plain-Meets (Prep.socket domain type (pos 0) 0))
        | inr unknown ↦ rw unknown refused-Meets
      ]

  -- Whatever liburing answers, each of the 36 operations of src/ops returns what the specification
  -- says and leaves the submission queue, with the batches handed to the kernel, as it says,
  -- provided that liburing hands out no entry twice before it is submitted.
  pub perform-Meets : (r : Request) → Meets k (draft k r) i tp t (perform k r i tp t)
  unfolding perform draft open_file uringio_read uringio_readv uringio_write uringio_writev
      uringio_close_file uringio_fsync uringio_fdatasync uringio_splice uringio_read_fixed
      uringio_write_fixed uringio_read_buffer_select uringio_readv_buffer_select
      uringio_read_multishot uringio_bind uringio_connect uringio_listen uringio_accept
      uringio_close_socket uringio_send uringio_recv uringio_sendto uringio_recvfrom uringio_sendmsg
      uringio_recvmsg uringio_recv_fixed uringio_recvmsg_fixed uringio_recv_buffer_select
      uringio_recvmsg_buffer_select uringio_send_zc uringio_send_zc_fixed uringio_sendmsg_zc
      uringio_accept_multishot uringio_recv_multishot uringio_recvmsg_multishot
  perform-Meets (Request.openat dfd path flags resolve mode) = plain-Meets _
  perform-Meets (Request.read fd buf size offset) = plain-Meets _
  perform-Meets (Request.readv fd iovecs nr_vecs offset nowait) = plain-Meets _
  perform-Meets (Request.write fd buf size offset) = plain-Meets _
  perform-Meets (Request.writev fd iovecs nr_vecs offset flags) = plain-Meets _
  perform-Meets (Request.close_file fd) = plain-Meets _
  perform-Meets (Request.fsync fd) = plain-Meets _
  perform-Meets (Request.fdatasync fd) = plain-Meets _
  perform-Meets (Request.splice fd_in off_in fd_out off_out nbytes flag) = plain-Meets _
  perform-Meets (Request.read_fixed fd buf size offset buf_index) = plain-Meets _
  perform-Meets (Request.write_fixed fd buf size offset buf_index) = plain-Meets _
  perform-Meets (Request.read_buffer_select fd size offset bgid) = selecting-Meets bgid _
  perform-Meets (Request.readv_buffer_select fd size offset bgid nowait) = selecting-Meets bgid _
  perform-Meets (Request.read_multishot fd offset bgid) = plain-Meets _
  perform-Meets (Request.socket domain type) = prep_socket-Meets domain type
  perform-Meets (Request.bind fd addr addrlen) = plain-Meets _
  perform-Meets (Request.connect fd addr addrlen) = plain-Meets _
  perform-Meets (Request.listen fd backlog) = plain-Meets _
  perform-Meets (Request.accept sockfd addr len flags) = plain-Meets _
  perform-Meets (Request.close_socket sockfd) = plain-Meets _
  perform-Meets (Request.send sockfd buf len is_poll_first) = plain-Meets _
  perform-Meets (Request.recv sockfd buf len is_poll_first) = plain-Meets _
  perform-Meets (Request.sendto sockfd buf len addr addrlen is_poll_first) = plain-Meets _
  perform-Meets (Request.recvfrom sockfd buf len addr addrlen is_poll_first) = plain-Meets _
  perform-Meets (Request.sendmsg sockfd iovecs nr_vecs addr addrlen is_poll_first) = plain-Meets _
  perform-Meets (Request.recvmsg sockfd iovecs nr_vecs is_poll_first) = plain-Meets _
  perform-Meets (Request.recv_fixed sockfd buf len is_poll_first buf_index) =
      registered-Meets buf_index _
  perform-Meets (Request.recvmsg_fixed sockfd iovecs nr_vecs is_poll_first buf_index) =
      registered-Meets buf_index _
  perform-Meets (Request.recv_buffer_select sockfd len bgid is_poll_first) = selecting-Meets bgid _
  perform-Meets (Request.recvmsg_buffer_select sockfd is_poll_first bgid) = selecting-Meets bgid _
  perform-Meets (Request.send_zc sockfd buf len is_poll_first) = plain-Meets _
  perform-Meets (Request.send_zc_fixed sockfd buf len is_poll_first buf_index) = plain-Meets _
  perform-Meets (Request.sendmsg_zc sockfd iovecs nr_vecs addr addrlen is_poll_first buf_index) =
      registered-Meets buf_index _
  perform-Meets (Request.accept_multishot sockfd addr len flags) = plain-Meets _
  perform-Meets (Request.recv_multishot sockfd len bgid is_poll_first) = selecting-Meets' bgid _
  perform-Meets (Request.recvmsg_multishot sockfd bgid is_poll_first msghdr) =
      selecting-Meets' bgid _
