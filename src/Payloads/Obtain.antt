-- ===== src/Payloads/Obtain.antt =====
-- src/python_api/buffers/buffers.c: `get_or_create_linear_buffer` and `get_or_create_vectored_buffer`,
-- which give a method the payload of the context or one of its own.
pub mod Vectored
pub mod Linear
use mathlib.Core.List.{Perm, append-nil}
use mathlib.Core.List.Perm
use puring.Base.{
  ℕ, zero, suc, ◌^◌, ◌<◌, ◌≡◌, refl, sym, ap, ◌∙◌, ℤ, pos, to_nat, to_signed, to_signed_of_lt,
  to_unsigned_32_of_lt, Option, none, some, Bool, true, false, inl, inr, Bool-cases, List, [], ◌∷◌,
  ◌++◌, length, arith, if◌then◌else◌,
}
use puring.Buffers.{
  normal_buf, PayloadOrigin, payload_user, payload_runtime, PayloadType, payload_linear,
  payload_iovec, LinearBuffers, VectoredBuffer, BufferPayload, Freed, memory, is_runtime,
  free_linear, free_vector, free_buffer_payload,
}
use puring.Ops.Words.{u32}
use puring.Payloads.{
  Supply, malloc, Region, Made, undone, built, alloc_each, view_each, fill_vectored,
  iovecs_vectored, array_vectored, create_linear_buffers, create_vectored_buffers,
  serialize_linear_buffers,
}
use puring.Payloads.Whole.{
  Payload, zero_payload, fill_region_vectors, iovecs_serialized, vectors_serialized,
  serialize_vectored_buffers,
}
use puring.Payloads.Tidy.{
  Tidy, holds, handed_back, last-one, create_buffers-Tidy, array_linear-Tidy,
  serialize_linear_buffers-Tidy,
}
use puring.Payloads.Single.{release, serialize_vectored_buffers-Tidy}

-- The argument `buffers_obj`: NULL, or a sequence of items.
abbrev pub Items : Type 0
Items = Option (List (Option Region))

abbrev pub origin_of : Items → PayloadOrigin
origin_of none = payload_runtime
origin_of (some items) = payload_user

-- The tests of the payload of the context.
abbrev pub is_linear : PayloadType → Option LinearBuffers → Bool
is_linear payload_linear (some b) = true
is_linear _ _ = false

abbrev pub is_vectored : PayloadType → Option VectoredBuffer → Bool
is_vectored payload_iovec (some b) = true
is_vectored _ _ = false

-- How many vectors there are.
abbrev pub count : Items → ℕ
count none = 1
count (some items) = length items

-- What is called for linear buffers, and for vectors.
unfoldable pub own_buffers : Items → ℤ → Supply → Made LinearBuffers
unfolding create_linear_buffers serialize_linear_buffers
own_buffers none bufsize supply = create_linear_buffers (pos 1) bufsize supply
own_buffers (some items) bufsize supply = serialize_linear_buffers items (pos 1) supply

unfoldable pub own_vectors : Items → Supply → Made VectoredBuffer
unfolding create_vectored_buffers serialize_vectored_buffers
own_vectors none supply = create_vectored_buffers (pos 1) (pos 1024) supply
own_vectors (some items) supply = serialize_vectored_buffers items (pos (length items)) supply

-- Where the buffers cannot be made, the two fields are what the memory of the payload held.
abbrev pub put_linear : BufferPayload → Option LinearBuffers → BufferPayload
put_linear p none = p
put_linear p (some b) = record p { linear = some b; vector = none }

abbrev pub linear_payload : PayloadOrigin → BufferPayload → BufferPayload
linear_payload origin p = record p {
  amount = pos 1;
  mode = normal_buf;
  payload_origin = origin;
  payload_type = payload_linear;
}

-- `get_or_create_linear_buffer` from `malloc` on, whose memory holds `junk`.
unfoldable pub own_linear : Items → ℤ → BufferPayload → Option ℕ × Supply → Made Payload
unfolding own_buffers
own_linear items bufsize junk (none, supply) = undone [] []
own_linear items bufsize junk (some address, supply) =
    let m = own_buffers items bufsize supply in
    record {
      result = some (address, linear_payload (origin_of items) (put_linear junk m.result));
      taken = memory address ∷ m.taken;
      freed = m.freed;
    }

-- `get_or_create_linear_buffer`, with the payload of the context.
unfoldable pub get_or_create_linear_buffer :
    Option Payload → Items → ℤ → BufferPayload → Supply → Made Payload
unfolding own_linear
get_or_create_linear_buffer (some (address, p)) none bufsize junk supply =
    if is_linear p.payload_type p.linear
    then built (address, p) []
    else own_linear none bufsize junk (malloc supply)
get_or_create_linear_buffer none none bufsize junk supply =
    own_linear none bufsize junk (malloc supply)
get_or_create_linear_buffer context (some items) bufsize junk supply =
    own_linear (some items) bufsize junk (malloc supply)

abbrev pub vectored_payload : PayloadOrigin → VectoredBuffer → BufferPayload
vectored_payload origin b = record zero_payload {
  vector = some b;
  amount = to_signed 31 b.nr_vecs;
  payload_origin = origin;
  payload_type = payload_iovec;
}

-- The end of `get_or_create_vectored_buffer`, of a payload of zeros.
unfoldable pub with_vectors :
    PayloadOrigin → ℕ → Option VectoredBuffer → List Freed → List Freed → Made Payload
with_vectors origin address none taken freed =
    undone (memory address ∷ taken) (freed ++ memory address ∷ [])
with_vectors origin address (some b) taken freed = record {
  result = some (address, vectored_payload origin b);
  taken = memory address ∷ taken;
  freed = freed;
}

unfoldable pub own_vectored : Items → Option ℕ × Supply → Made Payload
unfolding own_vectors with_vectors
own_vectored items (none, supply) = undone [] []
own_vectored items (some address, supply) =
    let m = own_vectors items supply in
    with_vectors (origin_of items) address m.result m.taken m.freed

-- `get_or_create_vectored_buffer`, with the payload of the context.
unfoldable pub get_or_create_vectored_buffer : Option Payload → Items → Supply → Made Payload
unfolding own_vectored
get_or_create_vectored_buffer (some (address, p)) none supply =
    if is_vectored p.payload_type p.vector
    then built (address, p) []
    else own_vectored none (malloc supply)
get_or_create_vectored_buffer none none supply = own_vectored none (malloc supply)
get_or_create_vectored_buffer context (some items) supply =
    own_vectored (some items) (malloc supply)
