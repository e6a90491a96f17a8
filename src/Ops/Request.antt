-- ===== src/Ops/Request.antt =====
-- All operations of src/ops as one type of requests, and the entry that each asks for.
use puring.Base.{
  ℕ, ◌%◌, ◌^◌, ℤ, pos, negsuc, Option, none, some, Bool, ◌||◌, List, [], ◌∷◌, if◌then◌else◌,
}
use puring.Uring.{Liburing, Prep, single, array, Code}
use puring.Timer.{TimeoutParams}
use puring.Ops.Words.{u16, u32, u64, eqb_ℤ}
use puring.Ops.Files.{
  open_how, open_file, uringio_read, uringio_readv, uringio_write, uringio_writev,
  uringio_close_file, uringio_fsync, uringio_fdatasync, uringio_splice, uringio_read_fixed,
  uringio_write_fixed, uringio_read_buffer_select, uringio_readv_buffer_select,
  uringio_read_multishot,
}
use puring.Ops.Sockets.{
  msghdr, poll_flags, prep_socket, uringio_bind, uringio_connect, uringio_listen, uringio_accept,
  uringio_close_socket, uringio_send, uringio_recv, uringio_sendto, uringio_recvfrom,
  uringio_sendmsg, uringio_recvmsg, uringio_recv_fixed, uringio_recvmsg_fixed,
  uringio_recv_buffer_select, uringio_recvmsg_buffer_select, uringio_send_zc, uringio_send_zc_fixed,
  uringio_sendmsg_zc, uringio_accept_multishot, uringio_recv_multishot, uringio_recvmsg_multishot,
}

-- An operation with its arguments, but for the ring, the request's index and the timeout.
pub data Request : Type 0 where
  openat : (dfd : ℤ) (path : ℕ) (flags : ℤ) (resolve : ℤ) (mode : ℕ) → Request
  read : (fd : ℤ) (buf : ℕ) (size : ℕ) (offset : ℤ) → Request
  readv : (fd : ℤ) (iovecs : ℕ) (nr_vecs : ℕ) (offset : ℤ) (nowait : Bool) → Request
  write : (fd : ℤ) (buf : ℕ) (size : ℕ) (offset : ℤ) → Request
  writev : (fd : ℤ) (iovecs : ℕ) (nr_vecs : ℕ) (offset : ℤ) (flags : ℤ) → Request
  close_file : (fd : ℤ) → Request
  fsync : (fd : ℤ) → Request
  fdatasync : (fd : ℤ) → Request
  splice : (fd_in : ℤ) (off_in : ℤ) (fd_out : ℤ) (off_out : ℤ) (nbytes : ℤ) (flag : ℤ) → Request
  read_fixed : (fd : ℤ) (buf : ℕ) (size : ℕ) (offset : ℤ) (buf_index : ℤ) → Request
  write_fixed : (fd : ℤ) (buf : ℕ) (size : ℕ) (offset : ℤ) (buf_index : ℤ) → Request
  read_buffer_select : (fd : ℤ) (size : ℕ) (offset : ℤ) (bgid : ℤ) → Request
  readv_buffer_select : (fd : ℤ) (size : ℕ) (offset : ℤ) (bgid : ℤ) (nowait : Bool) → Request
  read_multishot : (fd : ℤ) (offset : ℤ) (bgid : ℤ) → Request
  socket : (domain : ℤ) (type : ℤ) → Request
  bind : (fd : ℤ) (addr : ℕ) (addrlen : ℕ) → Request
  connect : (fd : ℤ) (addr : ℕ) (addrlen : ℕ) → Request
  listen : (fd : ℤ) (backlog : ℤ) → Request
  accept : (sockfd : ℤ) (addr : ℕ) (len : ℕ) (flags : ℤ) → Request
  close_socket : (sockfd : ℤ) → Request
  send : (sockfd : ℤ) (buf : ℕ) (len : ℕ) (is_poll_first : Bool) → Request
  recv : (sockfd : ℤ) (buf : ℕ) (len : ℕ) (is_poll_first : Bool) → Request
  sendto :
      (sockfd : ℤ) (buf : ℕ) (len : ℕ) (addr : ℕ) (addrlen : ℕ) (is_poll_first : Bool) → Request
  recvfrom :
      (sockfd : ℤ) (buf : ℕ) (len : ℕ) (addr : ℕ) (addrlen : ℕ) (is_poll_first : Bool) → Request
  sendmsg :
      (sockfd : ℤ) (iovecs : ℕ) (nr_vecs : ℕ) (addr : ℕ) (addrlen : ℕ) (is_poll_first : Bool)
      → Request
  recvmsg : (sockfd : ℤ) (iovecs : ℕ) (nr_vecs : ℕ) (is_poll_first : Bool) → Request
  recv_fixed : (sockfd : ℤ) (buf : ℕ) (len : ℕ) (is_poll_first : Bool) (buf_index : ℤ) → Request
  recvmsg_fixed :
      (sockfd : ℤ) (iovecs : ℕ) (nr_vecs : ℕ) (is_poll_first : Bool) (buf_index : ℤ) → Request
  recv_buffer_select : (sockfd : ℤ) (len : ℕ) (bgid : ℤ) (is_poll_first : Bool) → Request
  recvmsg_buffer_select : (sockfd : ℤ) (is_poll_first : Bool) (bgid : ℤ) → Request
  send_zc : (sockfd : ℤ) (buf : ℕ) (len : ℕ) (is_poll_first : Bool) → Request
  send_zc_fixed : (sockfd : ℤ) (buf : ℕ) (len : ℕ) (is_poll_first : Bool) (buf_index : ℤ) → Request
  sendmsg_zc :
      (sockfd : ℤ) (iovecs : ℕ) (nr_vecs : ℕ) (addr : ℕ) (addrlen : ℕ) (is_poll_first : Bool)
      (buf_index : ℤ)
      → Request
  accept_multishot : (sockfd : ℤ) (addr : ℕ) (len : ℕ) (flags : ℤ) → Request
  recv_multishot : (sockfd : ℤ) (len : ℕ) (bgid : ℤ) (is_poll_first : Bool) → Request
  recvmsg_multishot : (sockfd : ℤ) (bgid : ℤ) (is_poll_first : Bool) (msghdr : ℕ) → Request

-- The call of the operation.
unfoldable pub perform : Liburing → Request → ℤ → TimeoutParams → Code ℤ
perform k (openat dfd path flags resolve mode) i tp = open_file k i dfd path flags resolve mode tp
perform k (read fd buf size offset) i tp = uringio_read k i fd buf size offset tp
perform k (readv fd iovecs nr_vecs offset nowait) i tp =
    uringio_readv k i fd iovecs nr_vecs offset nowait tp
perform k (write fd buf size offset) i tp = uringio_write k i fd buf size offset tp
perform k (writev fd iovecs nr_vecs offset flags) i tp =
    uringio_writev k i fd iovecs nr_vecs offset flags tp
perform k (close_file fd) i tp = uringio_close_file k i fd tp
perform k (fsync fd) i tp = uringio_fsync k i fd tp
perform k (fdatasync fd) i tp = uringio_fdatasync k i fd tp
perform k (splice fd_in off_in fd_out off_out nbytes flag) i tp =
    uringio_splice k i fd_in off_in fd_out off_out nbytes flag tp
perform k (read_fixed fd buf size offset buf_index) i tp =
    uringio_read_fixed k i fd buf size offset buf_index tp
perform k (write_fixed fd buf size offset buf_index) i tp =
    uringio_write_fixed k i fd buf size offset buf_index tp
perform k (read_buffer_select fd size offset bgid) i tp =
    uringio_read_buffer_select k i fd size offset bgid tp
perform k (readv_buffer_select fd size offset bgid nowait) i tp =
    uringio_readv_buffer_select k i fd size offset bgid nowait tp
perform k (read_multishot fd offset bgid) i tp = uringio_read_multishot k i fd offset bgid tp
perform k (socket domain type) i tp = prep_socket k i domain type tp
perform k (bind fd addr addrlen) i tp = uringio_bind k i fd addr addrlen tp
perform k (connect fd addr addrlen) i tp = uringio_connect k i fd addr addrlen tp
perform k (listen fd backlog) i tp = uringio_listen k i fd backlog tp
perform k (accept sockfd addr len flags) i tp = uringio_accept k i sockfd addr len flags tp
perform k (close_socket sockfd) i tp = uringio_close_socket k i sockfd tp
perform k (send sockfd buf len is_poll_first) i tp =
    uringio_send k i sockfd buf len is_poll_first tp
perform k (recv sockfd buf len is_poll_first) i tp =
    uringio_recv k i sockfd buf len is_poll_first tp
perform k (sendto sockfd buf len addr addrlen is_poll_first) i tp =
    uringio_sendto k i sockfd buf len addr addrlen is_poll_first tp
perform k (recvfrom sockfd buf len addr addrlen is_poll_first) i tp =
    uringio_recvfrom k i sockfd buf len addr addrlen is_poll_first tp
perform k (sendmsg sockfd iovecs nr_vecs addr addrlen is_poll_first) i tp =
    uringio_sendmsg k i sockfd iovecs nr_vecs addr addrlen is_poll_first tp
perform k (recvmsg sockfd iovecs nr_vecs is_poll_first) i tp =
    uringio_recvmsg k i sockfd iovecs nr_vecs is_poll_first tp
perform k (recv_fixed sockfd buf len is_poll_first buf_index) i tp =
    uringio_recv_fixed k i sockfd buf len is_poll_first buf_index tp
perform k (recvmsg_fixed sockfd iovecs nr_vecs is_poll_first buf_index) i tp =
    uringio_recvmsg_fixed k i sockfd iovecs nr_vecs is_poll_first buf_index tp
perform k (recv_buffer_select sockfd len bgid is_poll_first) i tp =
    uringio_recv_buffer_select k i sockfd len bgid is_poll_first tp
perform k (recvmsg_buffer_select sockfd is_poll_first bgid) i tp =
    uringio_recvmsg_buffer_select k i sockfd is_poll_first bgid tp
perform k (send_zc sockfd buf len is_poll_first) i tp =
    uringio_send_zc k i sockfd buf len is_poll_first tp
perform k (send_zc_fixed sockfd buf len is_poll_first buf_index) i tp =
    uringio_send_zc_fixed k i sockfd buf len is_poll_first buf_index tp
perform k (sendmsg_zc sockfd iovecs nr_vecs addr addrlen is_poll_first buf_index) i tp =
    uringio_sendmsg_zc k i sockfd iovecs nr_vecs addr addrlen is_poll_first buf_index tp
perform k (accept_multishot sockfd addr len flags) i tp =
    uringio_accept_multishot k i sockfd addr len flags tp
perform k (recv_multishot sockfd len bgid is_poll_first) i tp =
    uringio_recv_multishot k i sockfd len bgid is_poll_first tp
perform k (recvmsg_multishot sockfd bgid is_poll_first msghdr) i tp =
    uringio_recvmsg_multishot k i sockfd bgid is_poll_first msghdr tp

-- What an entry should hold besides its tag and its link.
pub record Draft : Type 0 where
  pub request : Prep
  pub flags : List ℕ
  pub ioprio : List ℕ
  pub buf_group : Option ℕ
  pub buf_index : Option ℕ

abbrev pub plain : Prep → Draft
plain r = record { request = r; flags = []; ioprio = []; buf_group = none; buf_index = none }

module _ (k : Liburing) where
  -- The kernel picks the buffer from group `bgid`.
  abbrev pub selecting : ℤ → Prep → Draft
  selecting bgid r = record (plain r) {
    flags = k.iosqe_buffer_select ∷ [];
    buf_group = some (u16 bgid);
  }

  -- The buffer is the registered one at `buf_index`.
  abbrev pub registered : ℤ → Prep → Draft
  registered buf_index r = record (plain r) {
    ioprio = k.recvsend_fixed_buf ∷ [];
    buf_index = some (u16 buf_index);
  }

  -- The entry that a request asks for; `none` for a socket of another family than the IP ones.
  unfoldable pub draft : Request → Option Draft
  draft (openat dfd path flags resolve mode) = some (
      plain (
        Prep.openat2 dfd path (
          open_how (if eqb_ℤ flags (negsuc 0) then k.o_rdwr_creat else u64 flags) mode
            (u64 resolve))))
  draft (read fd buf size offset) = some (plain (Prep.read fd buf size (u64 offset)))
  draft (readv fd iovecs nr_vecs offset nowait) = some (
      plain (
        Prep.readv2 fd (array iovecs) nr_vecs (u64 offset)
          (if nowait then k.rwf_nowait else pos 0)))
  draft (write fd buf size offset) = some (plain (Prep.write fd buf size (u64 offset)))
  draft (writev fd iovecs nr_vecs offset flags) =
      some (plain (Prep.writev2 fd (array iovecs) nr_vecs (u64 offset) flags))
  draft (close_file fd) = some (plain (Prep.close fd))
  draft (fsync fd) = some (plain (Prep.fsync fd 0))
  draft (fdatasync fd) = some (plain (Prep.fsync fd k.fsync_datasync))
  draft (splice fd_in off_in fd_out off_out nbytes flag) =
      some (plain (Prep.splice fd_in (u64 off_in) fd_out (u64 off_out) (u32 nbytes) (u32 flag)))
  draft (read_fixed fd buf size offset buf_index) =
      some (plain (Prep.read_fixed fd buf size (u64 offset) buf_index))
  draft (write_fixed fd buf size offset buf_index) =
      some (plain (Prep.write_fixed fd buf size (u64 offset) buf_index))
  draft (read_buffer_select fd size offset bgid) =
      some (selecting bgid (Prep.read fd 0 size (u64 offset)))
  draft (readv_buffer_select fd size offset bgid nowait) = some (
      selecting bgid
        (Prep.readv2 fd (single 0 size) 1 (u64 offset) (if nowait then k.rwf_nowait else pos 0)))
  draft (read_multishot fd offset bgid) = some (plain (Prep.read_multishot fd 0 (u64 offset) bgid))
  draft (socket domain type) =
      if eqb_ℤ domain k.af_inet || eqb_ℤ domain k.af_inet6
      then some (plain (Prep.socket domain type (pos 0) 0))
      else none
  draft (bind fd addr addrlen) = some (plain (Prep.bind fd addr addrlen))
  draft (connect fd addr addrlen) = some (plain (Prep.connect fd addr addrlen))
  draft (listen fd backlog) = some (plain (Prep.listen fd backlog))
  draft (accept sockfd addr len flags) = some (plain (Prep.accept sockfd addr len flags))
  draft (close_socket sockfd) = some (plain (Prep.close sockfd))
  draft (send sockfd buf len is_poll_first) =
      some (plain (Prep.send sockfd buf len (poll_flags k is_poll_first)))
  draft (recv sockfd buf len is_poll_first) =
      some (plain (Prep.recv sockfd buf len (poll_flags k is_poll_first)))
  draft (sendto sockfd buf len addr addrlen is_poll_first) =
      some (plain (Prep.sendto sockfd buf len (poll_flags k is_poll_first) addr (addrlen % 2 ^ 32)))
  draft (recvfrom sockfd buf len addr addrlen is_poll_first) = some (
      plain
        (Prep.recvmsg sockfd (msghdr addr addrlen (single buf len) 1) (poll_flags k is_poll_first)))
  draft (sendmsg sockfd iovecs nr_vecs addr addrlen is_poll_first) = some (
      plain (
        Prep.sendmsg sockfd (msghdr addr (addrlen % 2 ^ 32) (array iovecs) nr_vecs)
          (poll_flags k is_poll_first)))
  draft (recvmsg sockfd iovecs nr_vecs is_poll_first) =
      some (
        plain
          (Prep.recvmsg sockfd (msghdr 0 0 (array iovecs) nr_vecs) (poll_flags k is_poll_first)))
  draft (recv_fixed sockfd buf len is_poll_first buf_index) =
      some (registered buf_index (Prep.recv sockfd buf len (poll_flags k is_poll_first)))
  draft (recvmsg_fixed sockfd iovecs nr_vecs is_poll_first buf_index) = some (
      registered buf_index
        (Prep.recvmsg sockfd (msghdr 0 0 (array iovecs) nr_vecs) (poll_flags k is_poll_first)))
  draft (recv_buffer_select sockfd len bgid is_poll_first) =
      some (selecting bgid (Prep.recv sockfd 0 len (poll_flags k is_poll_first)))
  draft (recvmsg_buffer_select sockfd is_poll_first bgid) =
      some
        (selecting bgid (Prep.recvmsg sockfd (msghdr 0 0 (array 0) 0) (poll_flags k is_poll_first)))
  draft (send_zc sockfd buf len is_poll_first) =
      some (plain (Prep.send_zc sockfd buf len (poll_flags k is_poll_first) 0))
  draft (send_zc_fixed sockfd buf len is_poll_first buf_index) =
      some
        (plain (Prep.send_zc_fixed sockfd buf len (poll_flags k is_poll_first) 0 (u32 buf_index)))
  draft (sendmsg_zc sockfd iovecs nr_vecs addr addrlen is_poll_first buf_index) = some (
      registered buf_index (
        Prep.sendmsg_zc sockfd (msghdr addr (addrlen % 2 ^ 32) (array iovecs) nr_vecs)
          (poll_flags k is_poll_first)))
  draft (accept_multishot sockfd addr len flags) =
      some (plain (Prep.multishot_accept sockfd addr len flags))
  draft (recv_multishot sockfd len bgid is_poll_first) =
      some (selecting bgid (Prep.recv_multishot sockfd 0 len (poll_flags k is_poll_first)))
  draft (recvmsg_multishot sockfd bgid is_poll_first msghdr) =
      some (selecting bgid (Prep.recvmsg_multishot sockfd msghdr (poll_flags k is_poll_first)))
