-- ===== src/Payloads/Whole.antt =====
-- src/python_api/buffers/buffers.c: the payloads that are made as a whole.
use puring.Base.{
  ℕ, ◌/◌, ℤ, pos, to_nat, Option, none, some, Bool, true, false, List, [], ◌∷◌, ◌++◌, map,
}
use puring.Buffers.{
  normal_buf, payload_user, payload_linear, payload_iovec, Iovec, VectoredBuffer, BufferPayload,
  memory, view,
}
use puring.Ops.Words.{u32}
use puring.Payloads.{
  Supply, malloc, Region, Made, undone, built, view_each, linear_of_region, iovec_of_region,
  views_of, maybe_memory,
}

-- `serialize_vectored_buffers` from its three allocations on.
unfoldable pub fill_region_vectors : ℤ → ℕ → ℕ → ℕ → List Region × Bool → Made VectoredBuffer
fill_region_vectors len views vec iovecs (regions, true) =
    built
      (record {
        address = vec;
        iovecs_address = iovecs;
        iovecs = map iovec_of_region regions;
        nr_vecs = u32 len;
        views = some (record { address = views; entries = map (λ r. r.id) regions });
      })
      (memory views ∷ memory vec ∷ memory iovecs ∷ views_of regions)
fill_region_vectors len views vec iovecs (regions, false) =
    undone (memory views ∷ memory vec ∷ memory iovecs ∷ views_of regions)
      (views_of regions ++ memory views ∷ memory iovecs ∷ memory vec ∷ [])

unfoldable pub iovecs_serialized : List (Option Region) → ℤ → ℕ → ℕ → Option ℕ → Made VectoredBuffer
unfolding view_each fill_region_vectors
iovecs_serialized items len views vec none =
    undone (memory views ∷ memory vec ∷ []) (memory views ∷ memory vec ∷ [])
iovecs_serialized items len views vec (some iovecs) =
    fill_region_vectors len views vec iovecs (view_each (to_nat len) items)

unfoldable pub vectors_serialized :
    List (Option Region) → ℤ → Option ℕ → Option ℕ × Supply → Made VectoredBuffer
unfolding iovecs_serialized
vectors_serialized items len (some views) (some vec, supply) =
    iovecs_serialized items len views vec (malloc supply).0
vectors_serialized items len views (vec, supply) =
    undone (maybe_memory views ++ maybe_memory vec) (maybe_memory views ++ maybe_memory vec)

-- `serialize_vectored_buffers` of a sequence of `len` items.
unfoldable pub serialize_vectored_buffers : List (Option Region) → ℤ → Supply → Made VectoredBuffer
unfolding vectors_serialized
serialize_vectored_buffers items len supply =
    let (views, supply') = malloc supply in vectors_serialized items len views (malloc supply')

-- A zeroed payload.
abbrev pub zero_payload : BufferPayload
zero_payload = record {
  payload_type = payload_linear;
  payload_origin = payload_user;
  mode = normal_buf;
  amount = pos 0;
  linear = none;
  vector = none;
  idx_registry = none;
  buf_idx = pos 0;
  bgid = pos 0;
  buf_ring = none;
}

-- A payload at its address.
abbrev pub Payload : Type 0
Payload = ℕ × BufferPayload

-- `create_buffer_payload_from_data`, from its second allocation on.
unfoldable pub data_views : ℕ → ℕ → Option Region → Option ℕ → Made Payload
data_views payload buffer region none =
    undone (memory payload ∷ memory buffer ∷ []) (memory buffer ∷ memory payload ∷ [])
data_views payload buffer none (some views) =
    undone (memory payload ∷ memory buffer ∷ memory views ∷ [])
      (memory views ∷ memory buffer ∷ memory payload ∷ [])
data_views payload buffer (some r) (some views) =
    built
      (
        payload,
        record zero_payload {
          amount = pos 1;
          linear = some (record {
            address = buffer;
            entries = linear_of_region r ∷ [];
            views = some (record { address = views; entries = r.id ∷ [] });
          });
        },
      )
      (memory payload ∷ memory buffer ∷ memory views ∷ view r.id ∷ [])

unfoldable pub data_buffer : ℕ → Option Region → Option ℕ × Supply → Made Payload
unfolding data_views
data_buffer payload region (none, supply) = undone (memory payload ∷ []) (memory payload ∷ [])
data_buffer payload region (some buffer, supply) =
    data_views payload buffer region (malloc supply).0

unfoldable pub data_payload : Option Region → Option ℕ × Supply → Made Payload
unfolding data_buffer
data_payload region (none, supply) = undone [] []
data_payload region (some payload, supply) = data_buffer payload region (malloc supply)

-- `create_buffer_payload_from_data`, with what the object shows of its memory.
unfoldable pub create_buffer_payload_from_data : Option Region → Supply → Made Payload
unfolding data_payload
create_buffer_payload_from_data region supply = data_payload region (malloc supply)

-- `create_buffer_payload_from_pybuffer` of a view that the caller has taken, with the vectors in it.
unfoldable pub pybuffer_views : ℕ → List Iovec → ℕ → ℕ → ℕ → ℕ → Option ℕ → Made Payload
pybuffer_views id iovecs len payload vec array none =
    undone (memory payload ∷ memory vec ∷ memory array ∷ [])
      (memory array ∷ memory vec ∷ memory payload ∷ [])
pybuffer_views id iovecs len payload vec array (some views) =
    built
      (
        payload,
        record zero_payload {
          payload_type = payload_iovec;
          amount = pos 1;
          vector = some (record {
            address = vec;
            iovecs_address = array;
            iovecs = iovecs;
            nr_vecs = u32 (pos (len / 16));
            views = some (record { address = views; entries = id ∷ [] });
          });
        },
      )
      (memory payload ∷ memory vec ∷ memory array ∷ memory views ∷ [])

unfoldable pub pybuffer_array : ℕ → List Iovec → ℕ → ℕ → ℕ → Option ℕ × Supply → Made Payload
unfolding pybuffer_views
pybuffer_array id iovecs len payload vec (none, supply) =
    undone (memory payload ∷ memory vec ∷ []) (memory vec ∷ memory payload ∷ [])
pybuffer_array id iovecs len payload vec (some array, supply) =
    pybuffer_views id iovecs len payload vec array (malloc supply).0

unfoldable pub pybuffer_vec : ℕ → List Iovec → ℕ → ℕ → Option ℕ × Supply → Made Payload
unfolding pybuffer_array
pybuffer_vec id iovecs len payload (none, supply) =
    undone (memory payload ∷ []) (memory payload ∷ [])
pybuffer_vec id iovecs len payload (some vec, supply) =
    pybuffer_array id iovecs len payload vec (malloc supply)

unfoldable pub pybuffer_payload : ℕ → List Iovec → ℕ → Option ℕ × Supply → Made Payload
unfolding pybuffer_vec
pybuffer_payload id iovecs len (none, supply) = undone [] []
pybuffer_payload id iovecs len (some payload, supply) =
    pybuffer_vec id iovecs len payload (malloc supply)

unfoldable pub create_buffer_payload_from_pybuffer : ℕ → List Iovec → ℕ → Supply → Made Payload
unfolding pybuffer_payload
create_buffer_payload_from_pybuffer id iovecs len supply =
    pybuffer_payload id iovecs len (malloc supply)
