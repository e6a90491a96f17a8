-- ===== src/Payloads.antt =====
-- src/python_api/buffers/buffers.c: the making of payloads. What is allocated, and the views that are
-- taken of Python objects, is listed, so that it can be compared with what is handed back.
pub mod Whole
pub mod Pairs
pub mod Create
pub mod Selecting
pub mod Lost
pub mod Users
pub mod Obtain
pub mod Tidy
pub mod Single
pub mod Both
use puring.Base.{
  ℕ, zero, suc, ◌/◌, ◌%◌, ◌^◌, ℤ, pos, to_nat, Option, none, some, Bool, true, false, List, [], ◌∷◌,
  ◌++◌, map, if◌then◌else◌,
}
use puring.Buffers.{
  BufferMode, normal_buf, PayloadOrigin, payload_user, payload_runtime, PayloadType, payload_linear,
  payload_iovec, payload_linear_and_iovec, Views, LinearBuffer, LinearBuffers, Iovec,
  VectoredBuffer, BufferPayload, Freed, memory, view,
}
use puring.Ops.Words.{u32, u64}

-- The answers of `malloc`, in order; NULL once there are no more.
abbrev pub Supply : Type 0
Supply = List (Option ℕ)

abbrev pub malloc : Supply → Option ℕ × Supply
malloc [] = (none, [])
malloc (p ∷ supply) = (p, supply)

-- What a Python object shows of its memory, and the view of it.
pub record Region : Type 0 where
  pub id : ℕ
  pub buf : ℕ
  pub len : ℕ

-- The result of a function: what it has made, if it has, what it has allocated and viewed, and what it
-- has handed back.
pub record Made {ℓ} (A : Type ℓ) : Type ℓ where
  pub result : Option A
  pub taken : List Freed
  pub freed : List Freed

-- Nothing is made.
abbrev pub undone {ℓ} : {A : Type ℓ} → List Freed → List Freed → Made A
undone taken freed = record { result = none; taken = taken; freed = freed }

abbrev pub built {ℓ} : {A : Type ℓ} → A → List Freed → Made A
built a taken = record { result = some a; taken = taken; freed = [] }

-- The loops that allocate `n` buffers: those that there are, and whether it is all.
unfoldable pub alloc_each : ℕ → Supply → List ℕ × Bool
alloc_each zero supply = ([], true)
alloc_each (suc n) [] = ([], false)
alloc_each (suc n) (none ∷ supply) = ([], false)
alloc_each (suc n) (some p ∷ supply) =
    let (buffers, all) = alloc_each n supply in (p ∷ buffers, all)

-- The loops that view `n` items, of a list of those that can be had and viewed.
unfoldable pub view_each : ℕ → List (Option Region) → List Region × Bool
view_each zero items = ([], true)
view_each (suc n) [] = ([], false)
view_each (suc n) (none ∷ items) = ([], false)
view_each (suc n) (some r ∷ items) = let (regions, all) = view_each n items in (r ∷ regions, all)

abbrev pub linear_at : ℤ → ℕ → LinearBuffer
linear_at bufsize p = record { buffer = p; len = u64 bufsize }

abbrev pub linear_of_region : Region → LinearBuffer
linear_of_region r = record { buffer = r.buf; len = r.len }

abbrev pub iovec_at : ℤ → ℕ → Iovec
iovec_at bufsize p = record { iov_base = p; iov_len = u64 bufsize }

abbrev pub iovec_of_region : Region → Iovec
iovec_of_region r = record { iov_base = r.buf; iov_len = r.len }

-- The end of `create_linear_buffers`, from its array on.
unfoldable pub fill_linear : ℤ → ℕ → List ℕ × Bool → Made LinearBuffers
fill_linear bufsize array (buffers, true) =
    built (record { address = array; entries = map (linear_at bufsize) buffers; views = none })
      (memory array ∷ map memory buffers)
fill_linear bufsize array (buffers, false) =
    undone (memory array ∷ map memory buffers) (map memory buffers ++ memory array ∷ [])

unfoldable pub array_linear : ℕ → ℤ → Option ℕ × Supply → Made LinearBuffers
unfolding alloc_each fill_linear
array_linear len bufsize (none, supply) = undone [] []
array_linear len bufsize (some array, supply) = fill_linear bufsize array (alloc_each len supply)

unfoldable pub create_linear_buffers : ℤ → ℤ → Supply → Made LinearBuffers
unfolding array_linear
create_linear_buffers len bufsize supply = array_linear (to_nat len) bufsize (malloc supply)

-- `create_vectored_buffers`, likewise.
unfoldable pub fill_vectored : ℤ → ℤ → ℕ → ℕ → List ℕ × Bool → Made VectoredBuffer
fill_vectored len bufsize vec iovecs (buffers, true) =
    built
      (record {
        address = vec;
        iovecs_address = iovecs;
        iovecs = map (iovec_at bufsize) buffers;
        nr_vecs = u32 len;
        views = none;
      })
      (memory vec ∷ memory iovecs ∷ map memory buffers)
fill_vectored len bufsize vec iovecs (buffers, false) =
    undone (memory vec ∷ memory iovecs ∷ map memory buffers)
      (map memory buffers ++ memory iovecs ∷ memory vec ∷ [])

unfoldable pub iovecs_vectored : ℤ → ℤ → ℕ → Option ℕ × Supply → Made VectoredBuffer
unfolding alloc_each fill_vectored
iovecs_vectored len bufsize vec (none, supply) = undone (memory vec ∷ []) (memory vec ∷ [])
iovecs_vectored len bufsize vec (some iovecs, supply) =
    fill_vectored len bufsize vec iovecs (alloc_each (to_nat len) supply)

unfoldable pub array_vectored : ℤ → ℤ → Option ℕ × Supply → Made VectoredBuffer
unfolding iovecs_vectored
array_vectored len bufsize (none, supply) = undone [] []
array_vectored len bufsize (some vec, supply) = iovecs_vectored len bufsize vec (malloc supply)

unfoldable pub create_vectored_buffers : ℤ → ℤ → Supply → Made VectoredBuffer
unfolding array_vectored
create_vectored_buffers len bufsize supply = array_vectored len bufsize (malloc supply)

-- A pointer that may be NULL, as allocated or freed.
abbrev pub maybe_memory : Option ℕ → List Freed
maybe_memory none = []
maybe_memory (some p) = memory p ∷ []

abbrev pub views_of : List Region → List Freed
views_of = map (λ r. view r.id)

-- `serialize_linear_buffers` from its two arrays on.
unfoldable pub fill_views : ℕ → ℕ → List Region × Bool → Made LinearBuffers
fill_views views buffers (regions, true) =
    built
      (record {
        address = buffers;
        entries = map linear_of_region regions;
        views = some (record { address = views; entries = map (λ r. r.id) regions });
      })
      (memory views ∷ memory buffers ∷ views_of regions)
fill_views views buffers (regions, false) =
    undone (memory views ∷ memory buffers ∷ views_of regions)
      (views_of regions ++ memory views ∷ memory buffers ∷ [])

unfoldable pub arrays_serialized :
    ℕ → List (Option Region) → Option ℕ → Option ℕ → Made LinearBuffers
unfolding view_each fill_views
arrays_serialized len items (some views) (some buffers) =
    fill_views views buffers (view_each len items)
arrays_serialized len items views buffers =
    undone (maybe_memory views ++ maybe_memory buffers) (maybe_memory views ++ maybe_memory buffers)

unfoldable pub serialize_linear_buffers : List (Option Region) → ℤ → Supply → Made LinearBuffers
unfolding arrays_serialized
serialize_linear_buffers items len supply =
    let (views, supply') = malloc supply in
    arrays_serialized (to_nat len) items views (malloc supply').0
