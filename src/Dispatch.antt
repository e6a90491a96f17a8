-- ===== src/Dispatch.antt =====
-- file_ops_dispatcher.c and socket_ops_dispatcher.c of src/python_api/ops: the choice of the
-- operation by the mode of the payload, and the index that a registered buffer takes.
pub mod Files
pub mod Sockets
pub mod Fixed
use puring.Base.{ℕ, ℤ, Option, none, some, List, [], ◌∷◌}
use puring.Buffers.{BufferPayload, LinearBuffer, LinearBuffers, VectoredBuffer}
use puring.BufferIndex.{get_buffer_idx}
use puring.Store.{Store, update}

-- Here `none` is a read through NULL.
infixl 5 ◌>>=◌
abbrev pub ◌>>=◌ {ℓ κ} : {A : Type ℓ} {B : Type κ} → Option A → (A → Option B) → Option B
◌>>=◌ none f = none
◌>>=◌ (some a) f = f a

-- `TransferMode`
pub data TransferMode : Type 0 where
  normal_transfer zero_copy : TransferMode

abbrev first_linear : List LinearBuffer → Option LinearBuffer
first_linear [] = none
first_linear (b ∷ bs) = some b

-- `*payload->linear` and `*payload->vector`
abbrev pub linear_of : BufferPayload → Option LinearBuffer
linear_of payload = payload.linear >>= λ b. first_linear b.entries

abbrev pub vector_of : BufferPayload → Option VectoredBuffer
vector_of payload = payload.vector

-- `buf_idx = get_buffer_idx(payload->idx_registry); payload->buf_idx = buf_idx`, for the payload
-- and the registry at their addresses.
abbrev pub taken : ℕ → ℕ → Store → ℤ × Store
taken payload idx_registry s =
    let (buf_idx, reg) = get_buffer_idx (s.indices idx_registry) in
    (
      buf_idx,
      record s {
        indices = update s.indices idx_registry reg;
        payloads = update s.payloads payload (record (s.payloads payload) { buf_idx = buf_idx });
      },
    )

unfoldable pub take_index : ℕ → Store → Option (ℤ × Store)
take_index payload s = do
  idx_registry ← (s.payloads payload).idx_registry
  some (taken payload idx_registry s)
