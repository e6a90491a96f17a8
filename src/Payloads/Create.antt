-- ===== src/Payloads/Create.antt =====
-- src/python_api/buffers/buffers.c: `create_buffer_payload`, which chooses how a payload is made, with
-- `_get_buffer_metadata`.
use puring.Base.{
  ℕ, zero, suc, ◌-◌, ◌/◌, ◌%◌, ◌^◌, ℤ, pos, negsuc, to_signed, Option, none, some, List, [], ◌∷◌,
  ◌++◌, length,
}
use puring.Buffers.{
  BufferMode, normal_buf, fixed, provided, buf_ring, buf_no_val, PayloadOrigin, payload_user,
  payload_runtime, origin_no_val, PayloadType, payload_linear, payload_iovec,
  payload_linear_and_iovec, payload_type_no_val, LinearBuffers, VectoredBuffer, BufferPayload,
  Freed, memory,
}
use puring.Payloads.{
  Made, undone, built, create_linear_buffers, create_vectored_buffers, serialize_linear_buffers,
}
use puring.Payloads.Whole.{Payload, serialize_vectored_buffers}
use puring.Payloads.Pairs.{Fresh, Attempt, make_buffers, serialize_buffers}

-- What has been taken and handed back before.
abbrev pub and_then : {A : Type 0} → List Freed → List Freed → Attempt A → Attempt A
and_then taken freed none = none
and_then taken freed (some m) =
    some (record { result = m.result; taken = taken ++ m.taken; freed = freed ++ m.freed })

abbrev pub if_made :
    {A B : Type 0} → Option A → List Freed → List Freed → (A → Attempt B) → Attempt B
if_made none taken freed f = some (undone taken freed)
if_made (some a) taken freed f = and_then taken freed (f a)

infixl 5 ◌>>=◌
abbrev pub ◌>>=◌ : {A B : Type 0} → Attempt A → (A → Attempt B) → Attempt B
none >>= f = none
some m >>= f = if_made m.result m.taken m.freed f

-- The argument `buffers`: NULL, no sequence, one without a length, or a sequence with its length and
-- `Py_SIZE`.
pub data PyBuffers : Type 0 where
  null no_sequence no_length : PyBuffers
  sequence : (len size : ℕ) → PyBuffers

-- `BufferMetadata`, of which `create_buffer_payload` reads three fields.
pub record BufferMetadata : Type 0 where
  pub payload_origin : PayloadOrigin
  pub amount : ℤ
  pub bufsize : ℤ

-- `(int)(Py_SIZE(buffers_obj) / amount)`; `none` is the division by 0.
unfoldable pub size_each : ℕ → ℤ → Option ℤ
size_each size (pos zero) = none
size_each size (pos (suc n)) = some (to_signed 31 (size / suc n))
size_each size (negsuc n) = some (to_signed 31 (2 ^ 32 - (size / suc n) % 2 ^ 32))

abbrev pub user_metadata : ℤ → Option ℤ → Option BufferMetadata
user_metadata amount none = none
user_metadata amount (some bufsize) =
    some (record { payload_origin = payload_user; amount = amount; bufsize = bufsize })

-- `_get_buffer_metadata`; zeros stand for an exception.
unfoldable pub get_buffer_metadata : PyBuffers → ℤ → ℤ → Option BufferMetadata
unfolding size_each
get_buffer_metadata null amount bufsize =
    some (record { payload_origin = payload_runtime; amount = amount; bufsize = bufsize })
get_buffer_metadata (sequence len size) amount bufsize =
    user_metadata (to_signed 31 len) (size_each size (to_signed 31 len))
get_buffer_metadata _ amount bufsize =
    some (record { payload_origin = payload_user; amount = pos 0; bufsize = pos 0 })

abbrev pub if_some : {A B : Type 0} → (A → B) → Option A → Option B
if_some f none = none
if_some f (some a) = some (f a)

abbrev pub with_linear : BufferPayload → Made LinearBuffers → Attempt BufferPayload
with_linear p m = some (record {
  result = if_some (λ b. record p { linear = some b; vector = none }) m.result;
  taken = m.taken;
  freed = m.freed;
})

abbrev pub with_vector : BufferPayload → Made VectoredBuffer → Attempt BufferPayload
with_vector p m = some (record {
  result = if_some (λ b. record p { linear = none; vector = some b }) m.result;
  taken = m.taken;
  freed = m.freed;
})

-- The three choices by the origin that the `switch` makes over and over, for the payload at `address`
-- that holds `p`.
unfoldable pub linear_part : PayloadOrigin → ℤ → ℤ → Fresh → BufferPayload → Attempt BufferPayload
unfolding create_linear_buffers serialize_linear_buffers
linear_part payload_runtime amount bufsize f p =
    with_linear p (create_linear_buffers amount bufsize f.supply)
linear_part payload_user amount bufsize f p =
    with_linear p (serialize_linear_buffers f.items amount f.supply)
linear_part origin_no_val amount bufsize f p = some (undone [] [])

unfoldable pub vector_part : PayloadOrigin → ℤ → ℤ → Fresh → BufferPayload → Attempt BufferPayload
unfolding create_vectored_buffers serialize_vectored_buffers
vector_part payload_runtime amount bufsize f p =
    with_vector p (create_vectored_buffers amount bufsize f.supply)
vector_part payload_user amount bufsize f p =
    with_vector p (serialize_vectored_buffers f.items (pos (length f.items)) f.supply)
vector_part origin_no_val amount bufsize f p = some (undone [] [])

unfoldable pub pair_part : ℕ → PayloadOrigin → ℤ → ℤ → Fresh → BufferPayload → Attempt BufferPayload
unfolding make_buffers serialize_buffers
pair_part address payload_runtime amount bufsize f p = make_buffers address p amount bufsize f
pair_part address payload_user amount bufsize f p = serialize_buffers address p amount f
pair_part address origin_no_val amount bufsize f p = some (undone [] [])

-- The inner `switch`, over the type.
unfoldable pub normal_part :
    PayloadType → ℕ → PayloadOrigin → ℤ → ℤ → Fresh → BufferPayload → Attempt BufferPayload
unfolding linear_part vector_part pair_part
normal_part payload_linear address origin amount bufsize f p = linear_part origin amount bufsize f p
normal_part payload_iovec address origin amount bufsize f p = vector_part origin amount bufsize f p
normal_part payload_linear_and_iovec address origin amount bufsize f p =
    pair_part address origin amount bufsize f p
normal_part payload_type_no_val address origin amount bufsize f p = some (undone [] [])

-- The `switch` over the mode, of which the first case goes on with the second: `first` and `second`
-- are what is found there, and `bgid` is what `rand` answers.
unfoldable pub mode_part :
    BufferMode
    → PayloadType
    → ℕ
    → BufferMetadata
    → (first second : Fresh) → ℤ
    → BufferPayload
    → Attempt BufferPayload
unfolding normal_part
mode_part normal_buf type address d first second bgid p =
    normal_part type address d.payload_origin d.amount d.bufsize first p
    >>= pair_part address d.payload_origin d.amount d.bufsize second
mode_part fixed type address d first second bgid p =
    pair_part address d.payload_origin d.amount d.bufsize first p
mode_part provided type address d first second bgid p =
    linear_part d.payload_origin d.amount d.bufsize first (record p { bgid = bgid })
mode_part buf_ring type address d first second bgid p =
    linear_part d.payload_origin d.amount d.bufsize first p
mode_part buf_no_val type address d first second bgid p = some (undone [] [])

-- What the cases leave in `payload_type`.
abbrev pub type_of : BufferMode → PayloadType
type_of provided = payload_linear
type_of buf_ring = payload_linear
type_of _ = payload_linear_and_iovec

-- The fields that are set at the end.
abbrev pub finish_payload : BufferMode → BufferMetadata → BufferPayload → BufferPayload
finish_payload mode d p = record p {
  amount = d.amount;
  payload_origin = d.payload_origin;
  mode = mode;
  payload_type = type_of mode;
}

abbrev pub finished : ℕ → BufferMode → BufferMetadata → BufferPayload → Attempt Payload
finished address mode d p = some (built (address, finish_payload mode d p) [])

-- `create_buffer_payload` from its own allocation on, whose memory holds `junk`. It never hands that
-- memory back by itself.
unfoldable pub payload_allocated :
    BufferMode
    → PayloadType
    → Option ℕ
    → BufferPayload
    → BufferMetadata
    → (first second : Fresh) → ℤ
    → Attempt Payload
unfolding mode_part
payload_allocated mode type none junk d first second bgid = some (undone [] [])
payload_allocated mode type (some address) junk d first second bgid =
    and_then (memory address ∷ []) [] (
      mode_part mode type address d first second bgid (record junk { bgid = pos 0 })
      >>= finished address mode d)

abbrev pub with_metadata :
    {A : Type 0} → Option BufferMetadata → (BufferMetadata → Attempt A) → Attempt A
with_metadata none f = none
with_metadata (some d) f = f d

-- `create_buffer_payload`; `none` is the division by 0 of an empty sequence, or a read through NULL.
unfoldable pub create_buffer_payload :
    BufferMode
    → PayloadType
    → PyBuffers
    → (amount bufsize : ℤ) → Option ℕ
    → BufferPayload
    → (first second : Fresh) → ℤ
    → Attempt Payload
unfolding payload_allocated get_buffer_metadata
create_buffer_payload mode type buffers amount bufsize given junk first second bgid =
    with_metadata (get_buffer_metadata buffers amount bufsize)
      λ d. payload_allocated mode type given junk d first second bgid
