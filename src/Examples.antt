-- ===== src/Examples.antt =====
-- A liburing, a store and registries on which the theorems are tried.
mod Queues
mod Requests
mod Methods
mod Indices
mod Completions
mod Flights
mod Loops
mod Blocks
mod Memory
mod Ends
mod Turns
mod Modules
use puring.Base.{
  ℕ, suc, ◌+◌, ◌^◌, ◌≡◌, ℤ, pos, negsuc, Option, none, some, Bool, true, false, List, [], ◌∷◌,
  length, arith,
}
use puring.Uring.{Liburing, Trace}
use puring.Uring.Queue.{NoReuse}
use puring.Timer.{TimeoutParams}
use puring.Buffers.{BufferPayload, payload_linear, payload_user, fixed}
use puring.BufferIndex.{FixedBufferIdxRegistry}
use puring.BufferIndex
use puring.Store.{Store}
use puring.Registry.{RequestRegistry, Entry, oneshot}
use puring.Registry
use puring.Reader.{Cqe, Host}
use puring.Submit.{World}
use puring.Submit.Guards.{Situation}

-- A kernel that accepts everything, with the given answers to `io_uring_get_sqe`.
abbrev pub kernel : (Trace → Option ℕ) → Liburing
kernel next_sqe = record {
  next_sqe = next_sqe;
  submit_result = λ t. pos 1;
  wait_submits = λ t. 1;
  queue_init_result = λ t. pos 0;
  register_result = λ t. pos 0;
  unregister_result = λ t. pos 0;
  iosqe_io_link = 4;
  iosqe_buffer_select = 32;
  recvsend_poll_first = 1;
  recvsend_fixed_buf = 4;
  rwf_nowait = pos 8;
  fsync_datasync = 1;
  timeout_multishot = 64;
  o_rdwr_creat = 66;
  af_inet = pos 2;
  af_inet6 = pos 10;
}

-- One with an entry for each call, and one without entries.
abbrev pub ready : Liburing
ready = kernel (λ t. some (length t))

abbrev pub exhausted : Liburing
exhausted = kernel (λ t. none)

pub ready-NoReuse : NoReuse ready
ready-NoReuse t p q v hp hq same =
    let first : length t ≡ p = cc in let second : suc (suc (length t)) ≡ q = cc in omega arith

pub exhausted-NoReuse : NoReuse exhausted
exhausted-NoReuse t p q v hp hq same = cc

-- No timeout.
abbrev pub no_timeout : TimeoutParams
no_timeout = record { sec = pos 0; nsec = pos 0; is_required = false }

-- Registries of two requests and of three buffers.
abbrev pub requests : RequestRegistry
requests = Registry.Valid.all_free 2

pub requests-IsValid : Registry.Valid.IsValid requests
requests-IsValid = (Registry.Valid.registry_new-IsValid 2 (omega arith)).1

abbrev pub buffers : FixedBufferIdxRegistry
buffers = BufferIndex.Valid.all_free 3

pub buffers-IsValid : BufferIndex.Valid.IsValid buffers
buffers-IsValid = (BufferIndex.Valid.buffer_idx_registry_create-IsValid 3 (omega arith)).1

-- A payload of one registered buffer of 16 bytes, with the index registry at 7.
abbrev pub payload : BufferPayload
payload = record {
  payload_type = payload_linear;
  payload_origin = payload_user;
  mode = fixed;
  amount = pos 1;
  linear =
      some
        (record { address = 600; entries = record { buffer = 700; len = 16 } ∷ []; views = none });
  vector = none;
  idx_registry = some 7;
  buf_idx = negsuc 0;
  bgid = pos 0;
  buf_ring = none;
}

abbrev pub store : Store
store = record {
  refs = λ o. 1;
  payloads = λ p. payload;
  indices = λ r. buffers;
  files = λ f. record { fd = pos 3; closed = false };
  sockets = λ s. record { sock_fd = pos 4; closed = false; domain = pos 2; addr = none };
  freed = [];
}

abbrev pub world : World
world = record { registry = requests; store = store; trace = [] }

-- A request with a future at 40 and a file at 50.
abbrev pub entry : Entry
entry = record {
  future = 40;
  buffer_payload = none;
  stream_strategy = oneshot;
  opcode = Registry.fsync;
  file = some 50;
  socket = none;
  addr = none;
  msghdr = none;
}

abbrev pub situation : Situation
situation = record {
  on_loop_thread = true;
  is_closing = false;
  parsed = true;
  future = some 40;
  payload = none;
}

-- What the reader is told of its surroundings.
abbrev pub host : Host
host = record {
  makes = λ c. true;
  new_socket = λ c. some 90;
  etime = 62;
  buffer_shift = 16;
  more_bit = 1;
  wakeup_fd = pos 8;
  wakeup_buf = 800;
  validated = λ a c. none;
}

-- The completion of the request in slot 1, with a result.
abbrev pub completion : ℤ → Cqe
completion res = record { user_data = 1; res = res; flags = 0 }
