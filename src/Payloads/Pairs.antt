-- ===== src/Payloads/Pairs.antt =====
-- src/python_api/buffers/buffers.c: `make_buffers` and `serialize_buffers`, which give a payload linear
-- buffers and vectors on the same memory, and release the payload where they fail. That reads fields
-- which nothing has written yet; what memory holds before it is written is an input.
use puring.Base.{
  ℕ, ◌-◌, ◌==◌, ℤ, to_nat, Option, none, some, Bool, true, false, not, ◌&&◌, List, [], ◌∷◌, ◌++◌,
  map, length, replicate, if◌then◌else◌,
}
use puring.Buffers.{
  Views, LinearBuffer, LinearBuffers, Iovec, VectoredBuffer, BufferPayload, Freed, memory,
  is_runtime, free_buffer_payload,
}
use puring.Ops.Words.{u32}
use puring.Payloads.{
  Supply, malloc, Region, Made, undone, built, alloc_each, view_each, linear_at, iovec_at,
  linear_of_region, iovec_of_region, views_of,
}

-- The answers of `malloc`, the items of the sequence, and what new memory holds: the pointers to
-- views, the number of vectors, and the entries behind those that are written.
pub record Fresh : Type 0 where
  pub supply : Supply
  pub items : List (Option Region)
  pub linear_views : Option Views
  pub linear_rest : List LinearBuffer
  pub vector_views : Option Views
  pub vector_rest : List Iovec
  pub nr_vecs : ℕ

-- What a function comes to; `none` is a read through NULL.
abbrev pub Attempt {ℓ} : Type ℓ → Type ℓ
Attempt A = Option (Made A)

-- A release of the payload, at `address`, and NULL. To free NULL is listed as the memory at 0.
abbrev pub released : List Freed → ℕ → BufferPayload → Made BufferPayload
released taken address p = undone taken (free_buffer_payload address p true)

-- A vector whose `iovecs` are NULL: a release at the origin RUNTIME reads as many as the memory says.
abbrev pub without_iovecs : Fresh → ℕ → VectoredBuffer
without_iovecs f vec = record {
  address = vec;
  iovecs_address = 0;
  iovecs = [];
  nr_vecs = f.nr_vecs;
  views = f.vector_views;
}

unfoldable pub null_iovecs : Fresh → List Freed → ℕ → ℕ → BufferPayload → Attempt BufferPayload
unfolding free_buffer_payload
null_iovecs f taken address vec p =
    if is_runtime p.payload_origin && not (f.nr_vecs == 0)
    then none
    else some (released taken address (record p { vector = some (without_iovecs f vec) }))

-- A `LinearBuffer` of zeros.
abbrev pub zero_linear : LinearBuffer
zero_linear = record { buffer = 0; len = 0 }

abbrev pub calloced : ℕ → ℤ → ℕ → List ℕ → Fresh → LinearBuffers
calloced n bufsize linear buffers f = record {
  address = linear;
  entries =
      map (linear_at bufsize) buffers
      ++ replicate (n - length buffers) zero_linear
      ++ f.linear_rest;
  views = none;
}

abbrev pub vectors : ℤ → ℕ → ℕ → Option Views → List Iovec → VectoredBuffer
vectors len vec iovecs views entries = record {
  address = vec;
  iovecs_address = iovecs;
  iovecs = entries;
  nr_vecs = u32 len;
  views = views;
}

-- The loop of `make_buffers`, and what it leaves; `views` of the vector is never set.
unfoldable pub pair_made :
    ℕ → BufferPayload → ℤ → ℤ → Fresh → ℕ → ℕ → ℕ → List ℕ × Bool → Made BufferPayload
unfolding free_buffer_payload
pair_made address p len bufsize f linear vec iovecs (buffers, true) =
    built
      (record p {
        linear =
            some (record {
              address = linear;
              entries = map (linear_at bufsize) buffers;
              views = none;
            });
        vector = some (vectors len vec iovecs f.vector_views (map (iovec_at bufsize) buffers));
      })
      (memory linear ∷ memory vec ∷ memory iovecs ∷ map memory buffers)
pair_made address p len bufsize f linear vec iovecs (buffers, false) =
    released (memory linear ∷ memory vec ∷ memory iovecs ∷ map memory buffers) address (record p {
      linear = some (calloced (to_nat len) bufsize linear buffers f);
      vector =
          some (
            vectors len vec iovecs f.vector_views
              (map (iovec_at bufsize) buffers ++ f.vector_rest));
    })

-- `make_buffers` from its second and third allocation on.
unfoldable pub make_iovecs :
    ℕ → BufferPayload → ℤ → ℤ → Fresh → ℕ → ℕ → Option ℕ × Supply → Attempt BufferPayload
unfolding null_iovecs pair_made alloc_each
make_iovecs address p len bufsize f linear vec (none, supply) =
    null_iovecs f (memory linear ∷ memory vec ∷ []) address vec
      (record p { linear = some (calloced (to_nat len) bufsize linear [] f) })
make_iovecs address p len bufsize f linear vec (some iovecs, supply) =
    some (pair_made address p len bufsize f linear vec iovecs (alloc_each (to_nat len) supply))

unfoldable pub make_vector :
    ℕ → BufferPayload → ℤ → ℤ → Fresh → ℕ → Option ℕ × Supply → Attempt BufferPayload
unfolding make_iovecs free_buffer_payload
make_vector address p len bufsize f linear (none, supply) = some (
    released (memory linear ∷ []) address
      (record p { linear = some (calloced (to_nat len) bufsize linear [] f) }))
make_vector address p len bufsize f linear (some vec, supply) =
    make_iovecs address p len bufsize f linear vec (malloc supply)

unfoldable pub make_linear :
    ℕ → BufferPayload → ℤ → ℤ → Fresh → Option ℕ × Supply → Attempt BufferPayload
unfolding make_vector free_buffer_payload
make_linear address p len bufsize f (none, supply) = some (released [] address p)
make_linear address p len bufsize f (some linear, supply) =
    make_vector address p len bufsize f linear (malloc supply)

-- `make_buffers` of the payload `p` at `address`.
unfoldable pub make_buffers : ℕ → BufferPayload → ℤ → ℤ → Fresh → Attempt BufferPayload
unfolding make_linear
make_buffers address p len bufsize f =
    make_linear address (record p { linear = none; vector = none }) len bufsize f (malloc f.supply)

-- The linear buffers of `serialize_buffers` before it has set `views`: the first entry has what its
-- memory holds, or NULL once it is written.
abbrev pub first_views : Fresh → List Region → Option Views
first_views f [] = f.linear_views
first_views f (r ∷ regions) = none

abbrev pub unviewed : ℕ → List Region → Fresh → LinearBuffers
unviewed linear regions f = record {
  address = linear;
  entries = map linear_of_region regions ++ f.linear_rest;
  views = first_views f regions;
}

-- The loop of `serialize_buffers`, and what it leaves.
unfoldable pub pair_viewed :
    ℕ → BufferPayload → ℤ → Fresh → ℕ → ℕ → ℕ → ℕ → List Region × Bool → Made BufferPayload
unfolding free_buffer_payload
pair_viewed address p len f views linear vec iovecs (regions, true) =
    built
      (record p {
        linear = some (record {
          address = linear;
          entries = map linear_of_region regions;
          views = some (record { address = views; entries = map (λ r. r.id) regions });
        });
        vector = some (vectors len vec iovecs none (map iovec_of_region regions));
      })
      (memory views ∷ memory linear ∷ memory vec ∷ memory iovecs ∷ views_of regions)
pair_viewed address p len f views linear vec iovecs (regions, false) =
    released (memory views ∷ memory linear ∷ memory vec ∷ memory iovecs ∷ views_of regions) address
      (record p {
        linear = some (unviewed linear regions f);
        vector =
            some (
              vectors len vec iovecs f.vector_views (map iovec_of_region regions ++ f.vector_rest));
      })

-- `serialize_buffers` from its allocations on; `views` is in no field yet where one fails.
unfoldable pub view_iovecs :
    ℕ → BufferPayload → ℤ → Fresh → ℕ → ℕ → ℕ → Option ℕ → Attempt BufferPayload
unfolding null_iovecs pair_viewed view_each
view_iovecs address p len f views linear vec none =
    null_iovecs f (memory views ∷ memory linear ∷ memory vec ∷ []) address vec
      (record p { linear = some (unviewed linear [] f) })
view_iovecs address p len f views linear vec (some iovecs) =
    some (pair_viewed address p len f views linear vec iovecs (view_each (to_nat len) f.items))

unfoldable pub view_vector :
    ℕ → BufferPayload → ℤ → Fresh → ℕ → ℕ → Option ℕ × Supply → Attempt BufferPayload
unfolding view_iovecs free_buffer_payload
view_vector address p len f views linear (none, supply) = some (
    released (memory views ∷ memory linear ∷ []) address
      (record p { linear = some (unviewed linear [] f) }))
view_vector address p len f views linear (some vec, supply) =
    view_iovecs address p len f views linear vec (malloc supply).0

unfoldable pub view_linear :
    ℕ → BufferPayload → ℤ → Fresh → ℕ → Option ℕ × Supply → Attempt BufferPayload
unfolding view_vector free_buffer_payload
view_linear address p len f views (none, supply) = some (released (memory views ∷ []) address p)
view_linear address p len f views (some linear, supply) =
    view_vector address p len f views linear (malloc supply)

unfoldable pub view_views :
    ℕ → BufferPayload → ℤ → Fresh → Option ℕ × Supply → Attempt BufferPayload
unfolding view_linear free_buffer_payload
view_views address p len f (none, supply) = some (released [] address p)
view_views address p len f (some views, supply) = view_linear address p len f views (malloc supply)

-- `serialize_buffers` of the payload `p` at `address`.
unfoldable pub serialize_buffers : ℕ → BufferPayload → ℤ → Fresh → Attempt BufferPayload
unfolding view_views
serialize_buffers address p len f =
    view_views address (record p { linear = none; vector = none }) len f (malloc f.supply)
