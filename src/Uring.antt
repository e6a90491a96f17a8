-- ===== src/Uring.antt =====
-- The boundary with liburing, as src/ring/ring.h and the operations of src/ops see it. What liburing
-- and the kernel answer is a parameter, a function of the calls made so far; what the program does
-- is the list of those calls. Pointers are addresses, 0 for NULL.
pub mod Queue
use puring.Base.{ℕ, ◌-◌, ◌^◌, ℤ, Option, none, some, List, [], ◌∷◌, Bool, if◌then◌else◌}

-- `struct open_how`, as src/ops/files fills it in.
pub record OpenHow : Type 0 where
  pub flags : ℕ
  pub mode : ℕ
  pub resolve : ℕ

-- An array of `struct iovec`: one at an address, or a local one of a single entry.
pub data Iovecs : Type 0 where
  array : ℕ → Iovecs
  single : ℕ → ℕ → Iovecs

-- The fields of `struct msghdr` that src/ops/sockets fills in.
pub record Msghdr : Type 0 where
  pub name : ℕ
  pub namelen : ℕ
  pub iov : Iovecs
  pub iovlen : ℕ
  pub control : ℕ
  pub controllen : ℕ

-- `{tv_sec, tv_nsec}`
pub record Timespec : Type 0 where
  pub tv_sec : ℤ
  pub tv_nsec : ℤ

-- The `io_uring_prep_*` calls that the program makes, with their arguments after the entry. A
-- structure passed by its address stands here with the fields that it has at the call.
pub data Prep : Type 0 where
  openat2 : (dfd : ℤ) (path : ℕ) (how : OpenHow) → Prep
  read write : (fd : ℤ) (buf nbytes offset : ℕ) → Prep
  readv2 writev2 : (fd : ℤ) (iovecs : Iovecs) (nr_vecs offset : ℕ) (flags : ℤ) → Prep
  close : (fd : ℤ) → Prep
  fsync : (fd : ℤ) (flags : ℕ) → Prep
  splice : (fd_in : ℤ) (off_in : ℕ) (fd_out : ℤ) (off_out nbytes flags : ℕ) → Prep
  read_fixed write_fixed : (fd : ℤ) (buf nbytes offset : ℕ) (buf_index : ℤ) → Prep
  read_multishot : (fd : ℤ) (nbytes offset : ℕ) (buf_group : ℤ) → Prep
  socket : (domain type protocol : ℤ) (flags : ℕ) → Prep
  bind connect : (fd : ℤ) (addr addrlen : ℕ) → Prep
  listen : (fd backlog : ℤ) → Prep
  accept multishot_accept : (fd : ℤ) (addr len : ℕ) (flags : ℤ) → Prep
  send recv recv_multishot : (fd : ℤ) (buf len flags : ℕ) → Prep
  send_zc : (fd : ℤ) (buf len flags zc_flags : ℕ) → Prep
  send_zc_fixed : (fd : ℤ) (buf len flags zc_flags buf_index : ℕ) → Prep
  sendto : (fd : ℤ) (buf len flags addr addrlen : ℕ) → Prep
  sendmsg sendmsg_zc recvmsg : (fd : ℤ) (msg : Msghdr) (flags : ℕ) → Prep
  recvmsg_multishot : (fd : ℤ) (msg flags : ℕ) → Prep
  timeout : (ts : Timespec) (count flags : ℕ) → Prep
  link_timeout : (ts : Timespec) (flags : ℕ) → Prep
  cancel_any : Prep
  provide_buffers : (addr : ℕ) (len nr bgid bid : ℤ) → Prep
  remove_buffers : (nr bgid : ℤ) → Prep
  poll_add : (fd : ℤ) (mask : ℕ) → Prep

-- One call of liburing, or one assignment to a field of an entry, with the answer where it has one.
-- An entry is named by its address.
pub data Call : Type 0 where
  got_sqe : (sqe : ℕ) → Call
  no_sqe : Call
  prepped : (sqe : ℕ) (request : Prep) → Call
  or_flags or_ioprio set_buf_group set_buf_index set_data : (sqe value : ℕ) → Call
  submitted : (result : ℤ) → Call
  -- `io_uring_submit_and_wait_timeout`, with the number of entries that it has submitted
  waited : (ts : Timespec) (count : ℕ) → Call
  queue_inited : (entries : ℕ) (result : ℤ) → Call
  queue_exited : Call
  buffers_registered : (iovecs nr : ℕ) (result : ℤ) → Call
  buffers_unregistered : (result : ℤ) → Call
  cqe_seen : (user_data : ℕ) → Call

-- The calls made so far, the latest first.
abbrev pub Trace : Type 0
Trace = List Call

-- liburing, the kernel behind it, and the constants of their headers.
pub record Liburing : Type 0 where
  -- `io_uring_get_sqe`: NULL, or the address of an entry
  pub next_sqe : Trace → Option ℕ
  -- `io_uring_submit`: the number of entries submitted, or a negated errno
  pub submit_result : Trace → ℤ
  -- the number of entries that `io_uring_submit_and_wait_timeout` submits
  pub wait_submits : Trace → ℕ
  pub queue_init_result : Trace → ℤ
  pub register_result : Trace → ℤ
  pub unregister_result : Trace → ℤ
  pub iosqe_io_link : ℕ
  pub iosqe_buffer_select : ℕ
  pub recvsend_poll_first : ℕ
  pub recvsend_fixed_buf : ℕ
  pub rwf_nowait : ℤ
  pub fsync_datasync : ℕ
  pub timeout_multishot : ℕ
  -- `O_RDWR | O_CREAT`
  pub o_rdwr_creat : ℕ
  pub af_inet : ℤ
  pub af_inet6 : ℤ

-- A piece of C code: what it returns, and the calls that it adds to the trace.
abbrev pub Code {ℓ} : Type ℓ → Type ℓ
Code A = Trace → A × Trace

infixl 5 ◌>>=◌ ◌>>◌
abbrev pub ◌>>=◌ {ℓ κ} : {A : Type ℓ} {B : Type κ} → Code A → (A → Code B) → Code B
◌>>=◌ m f t = let (a, t') = m t in f a t'

abbrev pub ◌>>◌ {ℓ κ} : {A : Type ℓ} {B : Type κ} → Code A → Code B → Code B
m >> n = m >>= λ _. n

abbrev pub pure {ℓ} : {A : Type ℓ} → A → Code A
pure a t = (a, t)

-- A call or assignment that answers nothing.
abbrev pub call : Call → Code (Unit {0})
call c t = (tt, c ∷ t)

-- `#define WAKEUP_FD_TAG UINT64_MAX`
abbrev pub wakeup_fd_tag : ℕ
wakeup_fd_tag = 2 ^ 64 - 1

module _ (k : Liburing) where
  -- `io_uring_get_sqe(ring)`
  unfoldable pub get_sqe : Code (Option ℕ)
  get_sqe t = elim (k.next_sqe t) [ none ↦ (none, no_sqe ∷ t) | some p ↦ (some p, got_sqe p ∷ t) ]

  -- `io_uring_submit(ring)`
  unfoldable pub submit : Code ℤ
  submit t = (k.submit_result t, submitted (k.submit_result t) ∷ t)

  -- `io_uring_submit_and_wait_timeout(ring, &cqe, 1, &ts, NULL)`, whose result is not read.
  unfoldable pub submit_and_wait : Timespec → Code (Unit {0})
  submit_and_wait ts t = (tt, waited ts (k.wait_submits t) ∷ t)

  -- The wrapper of sqe_helper.c, which only adds a message to `io_uring_get_sqe`.
  unfoldable pub create_sqe : Code (Option ℕ)
  unfolding get_sqe
  create_sqe = get_sqe
