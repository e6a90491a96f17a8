-- ===== src/Buffers.antt =====
-- src/python_api/buffers: the payloads that hold the buffers of a request, and how one is freed.
-- An allocation is named by its address.
use puring.Base.{
  ℕ, ℤ, to_nat, Option, none, some, Bool, true, false, not, ◌&&◌, List, [], ◌∷◌, ◌++◌, map, take,
  if◌then◌else◌,
}

pub data BufferMode : Type 0 where
  normal_buf fixed provided buf_ring buf_no_val : BufferMode

pub data PayloadOrigin : Type 0 where
  payload_user payload_runtime origin_no_val : PayloadOrigin

pub data PayloadType : Type 0 where
  payload_linear payload_iovec payload_linear_and_iovec payload_type_no_val : PayloadType

-- An array of `Py_buffer`.
pub record Views : Type 0 where
  pub address : ℕ
  pub entries : List ℕ

-- An array of `LinearBuffer`; the first entry keeps the views of all.
pub record LinearBuffer : Type 0 where
  pub buffer : ℕ
  pub len : ℕ

pub record LinearBuffers : Type 0 where
  pub address : ℕ
  pub entries : List LinearBuffer
  pub views : Option Views

-- `struct iovec`
pub record Iovec : Type 0 where
  pub iov_base : ℕ
  pub iov_len : ℕ

pub record VectoredBuffer : Type 0 where
  pub address : ℕ
  pub iovecs_address : ℕ
  pub iovecs : List Iovec
  pub nr_vecs : ℕ
  pub views : Option Views

pub record BufferPayload : Type 0 where
  pub payload_type : PayloadType
  pub payload_origin : PayloadOrigin
  pub mode : BufferMode
  pub amount : ℤ
  pub linear : Option LinearBuffers
  pub vector : Option VectoredBuffer
  pub idx_registry : Option ℕ
  pub buf_idx : ℤ
  pub bgid : ℤ
  pub buf_ring : Option ℕ

-- What is handed back: memory at an address, or a view.
pub data Freed : Type 0 where
  memory view : ℕ → Freed

abbrev pub is_normal : BufferMode → Bool
is_normal normal_buf = true
is_normal _ = false

abbrev pub is_fixed : BufferMode → Bool
is_fixed fixed = true
is_fixed _ = false

-- `case PROVIDED: case BUF_RING:`
abbrev pub is_selecting : BufferMode → Bool
is_selecting provided = true
is_selecting buf_ring = true
is_selecting _ = false

abbrev pub is_runtime : PayloadOrigin → Bool
is_runtime payload_runtime = true
is_runtime _ = false

-- `PyBuffer_Release` of the first `amount` views, and the array itself.
unfoldable pub free_views : ℕ → Option Views → List Freed
free_views amount none = []
free_views amount (some v) = map view (take amount v.entries) ++ memory v.address ∷ []

unfoldable pub free_linear : Bool → ℕ → Option LinearBuffers → List Freed
unfolding free_views
free_linear runtime amount none = []
free_linear runtime amount (some b) =
    (if runtime then map (λ e. memory e.buffer) (take amount b.entries) else [])
    ++ free_views amount b.views
    ++ memory b.address ∷ []

unfoldable pub free_vector : Bool → ℕ → Option VectoredBuffer → List Freed
unfolding free_views
free_vector runtime amount none = []
free_vector runtime amount (some b) =
    (if runtime then map (λ e. memory e.iov_base) (take b.nr_vecs b.iovecs) else [])
    ++ free_views amount b.views
    ++ memory b.iovecs_address ∷ memory b.address ∷ []

-- `free_buffer_payload` of the payload at `address`: what it hands back, in order. A payload of
-- another mode than NORMAL_BUF stays unless `force` is set.
unfoldable pub free_buffer_payload : ℕ → BufferPayload → Bool → List Freed
unfolding free_linear free_vector
free_buffer_payload address p force =
    if not (is_normal p.mode) && not force
    then []
    else free_linear (is_runtime p.payload_origin) (to_nat p.amount) p.linear
      ++ free_vector (is_runtime p.payload_origin) (to_nat p.amount) p.vector
      ++ memory address ∷ []
