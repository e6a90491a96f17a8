-- ===== src/Payloads/Both.antt =====
-- The release of a payload with linear buffers and vectors on the same memory.
use mathlib.Core.List.{append-nil}
use puring.Base.{
  ℕ, ◌^◌, ◌<◌, ◌≡◌, refl, ap, ◌∙◌, ℤ, pos, to_unsigned_32_of_lt, none, some, true, false, List, [],
  ◌∷◌, ◌++◌, map, length,
}
use puring.Buffers.{
  normal_buf, payload_runtime, payload_linear_and_iovec, BufferPayload, memory, free_views,
  free_linear, free_vector, free_buffer_payload,
}
use puring.Payloads.{Supply, Made, linear_at, iovec_at, alloc_each}
use puring.Payloads.Pairs.{Fresh, pair_made, make_iovecs, make_vector, make_linear, make_buffers}
use puring.Payloads.Tidy.{map-take}

-- Allocations that all succeed.
pub alloc_each-some :
    (buffers : List ℕ) → alloc_each (length buffers) (map some buffers) ≡ (buffers, true)
unfolding alloc_each
alloc_each-some [] = refl
alloc_each-some (p ∷ buffers) = ap (λ r. (p ∷ r.0, r.1)) (alloc_each-some buffers)

-- The end of `create_buffer_payload` for a payload of `n` buffers that it has made itself.
abbrev pub completed : ℕ → BufferPayload → BufferPayload
completed n p = record p {
  amount = pos n;
  payload_origin = payload_runtime;
  mode = normal_buf;
  payload_type = payload_linear_and_iovec;
}

module _ (address : ℕ) (p : BufferPayload) (bufsize : ℤ) (f : Fresh) (linear vec iovecs : ℕ)
    (buffers : List ℕ) where
  -- Where all allocations succeed, `make_buffers` makes a payload whose release frees each of its
  -- buffers twice, as a linear buffer and as a vector, and takes what the memory of the vector held
  -- before for the views to release.
  pub free_buffer_payload-make_buffers :
      length buffers < 2 ^ 32
      → f.supply ≡ some linear ∷ some vec ∷ some iovecs ∷ map some buffers
      → (m : Made BufferPayload) × (p' : BufferPayload) × (make_buffers address p
            (pos (length buffers))
            bufsize
            f
          ≡ some m)
        × (m.result ≡ some p')
        × (m.freed ≡ [])
        × (m.taken ≡ memory linear ∷ memory vec ∷ memory iovecs ∷ map memory buffers)
        × (free_buffer_payload address (completed (length buffers) p') false
            ≡ (map memory buffers ++ memory linear ∷ [])
              ++ (map memory buffers
                  ++ free_views (length buffers) f.vector_views
                  ++ memory iovecs ∷ memory vec ∷ [])
              ++ memory address ∷ [])
  unfolding free_buffer_payload free_linear free_vector make_buffers make_linear make_vector
      make_iovecs pair_made free_views
  free_buffer_payload-make_buffers small supply =
      let n = length buffers in
      let p₀ : BufferPayload = record p { linear = none; vector = none } in
      let m = pair_made address p₀ (pos n) bufsize f linear vec iovecs (buffers, true) in
      (
        m,
        _,
        ap (λ (s : Supply). make_buffers address p (pos n) bufsize (record f { supply = s })) supply
            ∙ ap (λ r. some (pair_made address p₀ (pos n) bufsize f linear vec iovecs r))
                (alloc_each-some buffers),
        refl,
        refl,
        refl,
        rw
            (
              to_unsigned_32_of_lt (length buffers) small,
              map-take (λ e. memory e.buffer) (linear_at bufsize) (length buffers) buffers refl,
              map-take (λ e. memory e.iov_base) (iovec_at bufsize) (length buffers) buffers refl,
              append-nil (map memory buffers),
            )
            refl,
      )
