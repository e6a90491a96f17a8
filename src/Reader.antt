-- ===== src/Reader.antt =====
-- src/python_api/reader/on_ready.c: what becomes of the completions of the ring.
pub mod Complete
pub mod Gather
pub mod Step
pub mod Invariant
pub mod Resolve
use puring.Base.{
  ℕ, suc, ◌-◌, ◌==◌, ◌<◌, ℤ, pos, negsuc, is_neg, to_signed, ltb, Option, none, some, Bool, true,
  false, not, ◌&&◌, List, [], ◌∷◌, set, if◌then◌else◌,
}
use puring.Uring.{Liburing, Trace, got_sqe, prepped, set_data, cqe_seen, wakeup_fd_tag}
use puring.Buffers.{Iovec}
use puring.Store.{Store, decref}
use puring.Registry.{
  RequestRegistry, RequestSlot, Opcode, timeout, slot_at, registry_get, registry_remove,
}
use puring.Submit.{World}

-- The fields of `struct io_uring_cqe`.
pub record Cqe : Type 0 where
  pub user_data : ℕ
  pub res : ℤ
  pub flags : ℕ

-- The Python object that a request results in: bytes copied from an address, or gathered from
-- several, a number, a file, a socket, or None.
pub data Value : Type 0 where
  bytes : (address length : ℕ) → Value
  gathered : List (ℕ × ℕ) → Value
  number : ℤ → Value
  the_file the_socket : ℕ → Value
  no_value : Value

pub data Event : Type 0 where
  set_result : (future : ℕ) (value : Value) → Event
  set_exception : (future : ℕ) (errno : ℤ) → Event
  print_error : Event

-- What the interpreter, the kernel's headers and liburing tell the reader.
pub record Host : Type 0 where
  -- whether the object for a completion can be made
  pub makes : Cqe → Bool
  -- the socket made for an accepted connection
  pub new_socket : Cqe → Option ℕ
  -- `ETIME`, `IORING_CQE_BUFFER_SHIFT`, and the position of the bit `IORING_CQE_F_MORE`
  pub etime : ℕ
  pub buffer_shift : ℕ
  pub more_bit : ℕ
  -- `loop->wakeup_fd` and the address of `loop->wakeup_buf`
  pub wakeup_fd : ℤ
  pub wakeup_buf : ℕ
  -- `io_uring_recvmsg_validate` of the buffer at an address, with the payload that it finds
  pub validated : ℕ → Cqe → Option (ℕ × ℕ)

-- What the `switch` leaves: the result, whether it cleared the slot's payload and address, and the
-- state. Or it goes on with the next completion, the slot left as it is.
pub record Done : Type 0 where
  pub value : Option Value
  pub clears_payload : Bool
  pub clears_addr : Bool
  pub store : Store
  pub trace : Trace
  pub printed : List Event

pub data Completion : Type 0 where
  completed : Done → Completion
  skipped : Store → List Event → Completion

-- The loop over the vectors: the address and the length of each piece that it copies.
unfoldable pub gather : List Iovec → ℕ → List (ℕ × ℕ)
gather [] remaining = []
gather (v ∷ vs) remaining =
    let chunk = if ltb remaining v.iov_len then remaining else v.iov_len in
    let rest = gather vs (remaining - chunk) in
    if remaining == 0 then [] else (v.iov_base, chunk) ∷ rest
