-- ===== src/Payloads/Obtain/Vectored.antt =====
-- src/python_api/buffers/buffers.c: what `get_or_create_vectored_buffer` comes to.
use mathlib.Core.List.{Perm}
use mathlib.Core.List.Perm
use puring.Base.{
  ℕ, ◌^◌, ◌<◌, ◌≡◌, refl, ap, ◌∙◌, ℤ, pos, to_nat, to_signed, to_signed_of_lt, to_unsigned_32_of_lt,
  Option, none, some, Bool, true, false, inl, inr, Bool-cases, List, [], ◌∷◌, ◌++◌, length, arith,
}
use puring.Buffers.{
  PayloadOrigin, payload_user, payload_runtime, VectoredBuffer, Freed, memory, is_runtime,
  free_linear, free_vector, free_buffer_payload,
}
use puring.Ops.Words.{u32}
use puring.Payloads.{
  Supply, malloc, Region, Made, built, alloc_each, view_each, fill_vectored, iovecs_vectored,
  array_vectored, create_vectored_buffers,
}
use puring.Payloads.Whole.{
  Payload, fill_region_vectors, iovecs_serialized, vectors_serialized, serialize_vectored_buffers,
}
use puring.Payloads.Tidy.{Tidy, holds, handed_back, last-one, create_buffers-Tidy}
use puring.Payloads.Single.{release, serialize_vectored_buffers-Tidy}
use puring.Payloads.Obtain.{
  Items, is_vectored, count, own_vectors, vectored_payload, with_vectors, own_vectored,
  get_or_create_vectored_buffer,
}

-- The vectors are counted.
Counts : ℕ → Made VectoredBuffer → Type 0
Counts n m = (b : VectoredBuffer) → m.result ≡ some b → b.nr_vecs ≡ u32 (pos n)

module _ (n : ℕ) where
  fill_vectored-Counts :
      (bufsize : ℤ) (vec iovecs : ℕ) (r : List ℕ × Bool)
      → Counts n (fill_vectored (pos n) bufsize vec iovecs r)
  unfolding fill_vectored Counts
  fill_vectored-Counts bufsize vec iovecs (buffers, true) b e = cc
  fill_vectored-Counts bufsize vec iovecs (buffers, false) b e = absurd (cc)

  create_vectored_buffers-Counts :
      (bufsize : ℤ) (supply : Supply) → Counts n (create_vectored_buffers (pos n) bufsize supply)
  unfolding create_vectored_buffers array_vectored iovecs_vectored Counts
  create_vectored_buffers-Counts bufsize [] b e = absurd (cc)
  create_vectored_buffers-Counts bufsize (none ∷ supply) b e = absurd (cc)
  create_vectored_buffers-Counts bufsize (some vec ∷ []) b e = absurd (cc)
  create_vectored_buffers-Counts bufsize (some vec ∷ none ∷ supply) b e = absurd (cc)
  create_vectored_buffers-Counts bufsize (some vec ∷ some iovecs ∷ supply) b e =
      fill_vectored-Counts bufsize vec iovecs (alloc_each n supply) b e

  fill_region_vectors-Counts :
      (views vec iovecs : ℕ) (r : List Region × Bool)
      → Counts n (fill_region_vectors (pos n) views vec iovecs r)
  unfolding fill_region_vectors Counts
  fill_region_vectors-Counts views vec iovecs (regions, true) b e = cc
  fill_region_vectors-Counts views vec iovecs (regions, false) b e = absurd (cc)

  vectors_serialized-Counts :
      (items : List (Option Region)) (views : Option ℕ) (given : Option ℕ × Supply)
      → Counts n (vectors_serialized items (pos n) views given)
  unfolding vectors_serialized iovecs_serialized Counts
  vectors_serialized-Counts items none (none, supply) b e = absurd (cc)
  vectors_serialized-Counts items none (some vec, supply) b e = absurd (cc)
  vectors_serialized-Counts items (some views) (none, supply) b e = absurd (cc)
  vectors_serialized-Counts items (some views) (some vec, []) b e = absurd (cc)
  vectors_serialized-Counts items (some views) (some vec, none ∷ supply) b e = absurd (cc)
  vectors_serialized-Counts items (some views) (some vec, some iovecs ∷ supply) b e =
      fill_region_vectors-Counts views vec iovecs (view_each n items) b e

  serialized-Counts :
      (items : List (Option Region)) (supply : Supply)
      → Counts n (serialize_vectored_buffers items (pos n) supply)
  unfolding serialize_vectored_buffers
  serialized-Counts items supply =
      vectors_serialized-Counts items (malloc supply).0 (malloc (malloc supply).1)

  -- The payload of such vectors, where their making is tidy.
  vectored_payload-release :
      (origin : PayloadOrigin) (address : ℕ) (b : VectoredBuffer)
      → n < 2 ^ 31
      → b.nr_vecs ≡ u32 (pos n)
      → release (address, vectored_payload origin b)
        ≡ free_vector (is_runtime origin) n (some b) ++ memory address ∷ []
  unfolding free_buffer_payload free_linear
  vectored_payload-release origin address b small counted =
      let same : to_signed 31 b.nr_vecs ≡ pos n =
        ap (to_signed 31) (counted ∙ to_unsigned_32_of_lt n (omega arith))
        ∙ to_signed_of_lt n small in
      ap (λ k. free_vector (is_runtime origin) (to_nat k) (some b) ++ memory address ∷ []) same

  filled-Tidy :
      (origin : PayloadOrigin) (address : ℕ) (b : VectoredBuffer) (taken : List Freed)
      → n < 2 ^ 31
      → b.nr_vecs ≡ u32 (pos n)
      → Perm (free_vector (is_runtime origin) n (some b)) taken
      → Tidy release (with_vectors origin address (some b) taken [])
  unfolding with_vectors
  filled-Tidy origin address b taken small counted same =
      holds (address, vectored_payload origin b) refl refl
        (rw (vectored_payload-release origin address b small counted) (
          Perm.trans (last-one (free_vector (is_runtime origin) n (some b)) (memory address))
            (Perm.cons (memory address) same)))

  with_vectors-Tidy :
      (origin : PayloadOrigin) (address : ℕ) (o : Option VectoredBuffer) (taken freed : List Freed)
      → n < 2 ^ 31
      → Counts n (record { result = o; taken = taken; freed = freed })
      → Tidy
          (λ b. free_vector (is_runtime origin) n (some b))
          (record { result = o; taken = taken; freed = freed })
      → Tidy release (with_vectors origin address o taken freed)
  unfolding with_vectors Counts
  with_vectors-Tidy origin address o taken freed small counts (holds b e none_freed same) =
      rw (e, none_freed) (filled-Tidy origin address b taken small (counts b e) same)
  with_vectors-Tidy origin address o taken freed small counts (handed_back e same) = rw e (
      handed_back refl
        (Perm.trans (last-one freed (memory address)) (Perm.cons (memory address) same)))

own_vectored-Tidy :
    (items : Items) (given : Option ℕ × Supply)
    → count items < 2 ^ 31
    → Tidy release (own_vectored items given)
unfolding own_vectored own_vectors
own_vectored-Tidy items (none, supply) small = handed_back refl (Perm.refl [])
own_vectored-Tidy none (some address, supply) small =
    let m = create_vectored_buffers (pos 1) (pos 1024) supply in
    with_vectors-Tidy 1 payload_runtime address m.result m.taken m.freed (omega arith)
      (create_vectored_buffers-Counts 1 (pos 1024) supply)
      (create_buffers-Tidy (pos 1024) 1 supply (omega arith)).3
own_vectored-Tidy (some items) (some address, supply) small =
    let m = serialize_vectored_buffers items (pos (length items)) supply in
    with_vectors-Tidy (length items) payload_user address m.result m.taken m.freed small
      (serialized-Counts (length items) items supply)
      (serialize_vectored_buffers-Tidy items (length items) supply)

-- What `get_or_create_vectored_buffer` answers: the payload of the context, with nothing taken; or one
-- of its own, whose release hands back all that was taken, each once; or NULL, with all of it handed
-- back.
pub data Obtained (context : Option Payload) (m : Made Payload) : Type 0 where
  shared : (a : Payload) → context ≡ some a → m ≡ built a [] → Obtained context m
  own : Tidy release m → Obtained context m

-- However the allocations go, and for at most 2 ^ 31 - 1 items, `get_or_create_vectored_buffer`
-- answers the payload of the context, and takes nothing; or one of its own, whose release hands back
-- all that was taken, each once; or NULL, with all of it handed back.
pub get_or_create_vectored_buffer-Obtained :
    (context : Option Payload) (items : Items) (supply : Supply)
    → count items < 2 ^ 31
    → Obtained context (get_or_create_vectored_buffer context items supply)
unfolding get_or_create_vectored_buffer
get_or_create_vectored_buffer-Obtained none none supply small =
    own (own_vectored-Tidy none (malloc supply) small)
get_or_create_vectored_buffer-Obtained none (some items) supply small =
    own (own_vectored-Tidy (some items) (malloc supply) small)
get_or_create_vectored_buffer-Obtained (some a) (some items) supply small =
    own (own_vectored-Tidy (some items) (malloc supply) small)
get_or_create_vectored_buffer-Obtained (some (address, p)) none supply small =
    elim (Bool-cases (is_vectored p.payload_type p.vector)) [
      | inl at_hand ↦ rw at_hand (shared (address, p) refl refl)
      | inr not_at_hand ↦ rw not_at_hand (own (own_vectored-Tidy none (malloc supply) small))
    ]
