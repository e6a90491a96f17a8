-- ===== src/Payloads/Lost.antt =====
-- A payload of the mode NORMAL_BUF: the first case of the `switch` goes on with the second.
use mathlib.Core.List.{append-nil}
use puring.Base.{
  ℕ, ◌^◌, ◌<◌, ◌≡◌, refl, sym, ap, ◌∙◌, ℤ, pos, none, some, true, false, List, [], ◌∷◌, ◌++◌, map,
  length,
}
use puring.Buffers.{
  normal_buf, payload_linear, payload_runtime, LinearBuffers, BufferPayload, memory, free_views,
  free_buffer_payload,
}
use puring.Payloads.{
  Supply, Made, alloc_each, linear_at, fill_linear, array_linear, create_linear_buffers,
}
use puring.Payloads.Whole.{Payload}
use puring.Payloads.Pairs.{Fresh}
use puring.Payloads.Both.{alloc_each-some, completed, free_buffer_payload-make_buffers}
use puring.Payloads.Create.{
  and_then, if_made, ◌>>=◌, BufferMetadata, with_linear, linear_part, normal_part, pair_part,
  mode_part, finished, payload_allocated, null, get_buffer_metadata, create_buffer_payload,
}

module _ (address : ℕ) (junk : BufferPayload) (bufsize bgid : ℤ) (first second : Fresh)
    (array linear vec iovecs : ℕ) (lost buffers : List ℕ) where
  abbrev n : ℕ
  n = length buffers

  abbrev asked : BufferMetadata
  asked = record { payload_origin = payload_runtime; amount = pos n; bufsize = bufsize }

  first_buffers :
      length lost ≡ n
      → first.supply ≡ some array ∷ map some lost
      → create_linear_buffers (pos n) bufsize first.supply ≡ fill_linear bufsize array (lost, true)
  unfolding create_linear_buffers array_linear
  first_buffers same supply =
      ap (λ (s : Supply). create_linear_buffers (pos n) bufsize s) supply
      ∙ ap (λ l. fill_linear bufsize array (alloc_each l (map some lost))) (sym same)
      ∙ ap (fill_linear bufsize array) (alloc_each-some lost)

  -- Where all allocations succeed, `create_buffer_payload` of a linear payload of the mode NORMAL_BUF
  -- makes its buffers twice, and nothing points to the first ones any more: its release, forced or
  -- not, hands back neither them nor their array, and those that it hands back it frees twice.
  pub create_buffer_payload-loses :
      n < 2 ^ 32
      → length lost ≡ n
      → first.supply ≡ some array ∷ map some lost
      → second.supply ≡ some linear ∷ some vec ∷ some iovecs ∷ map some buffers
      → (m : Made Payload) × (p : BufferPayload) × (create_buffer_payload normal_buf payload_linear
            null
            (pos n)
            bufsize
            (some address)
            junk
            first
            second
            bgid
          ≡ some m)
        × (m.result ≡ some (address, p))
        × (m.freed ≡ [])
        × (m.taken
            ≡ memory address
              ∷ ((memory array ∷ map memory lost)
                  ++ (memory linear ∷ memory vec ∷ memory iovecs ∷ map memory buffers)))
        × (free_buffer_payload address p false
            ≡ (map memory buffers ++ memory linear ∷ [])
              ++ (map memory buffers
                  ++ free_views n second.vector_views
                  ++ memory iovecs ∷ memory vec ∷ [])
              ++ memory address ∷ [])
  unfolding create_buffer_payload payload_allocated mode_part normal_part linear_part pair_part
      get_buffer_metadata fill_linear
  create_buffer_payload-loses small same supply supply' =
      let b : LinearBuffers = record {
        address = array;
        entries = map (linear_at bufsize) lost;
        views = none;
      } in
      let p₁ : BufferPayload = record junk { bgid = pos 0; linear = some b; vector = none } in
      let (m₂, p₂, e, made, kept, taken, release) =
        free_buffer_payload-make_buffers address p₁ bufsize second linear vec iovecs buffers small
          supply' in
      let first_taken = memory array ∷ map memory lost in
      let end = finished address normal_buf asked in
      (
        _,
        completed n p₂,
        ap
              (λ given. and_then (memory address ∷ []) [] (
                with_linear (record junk { bgid = pos 0 }) given
                >>= pair_part address payload_runtime (pos n) bufsize second
                >>= end))
              (first_buffers same supply)
            ∙ ap (λ o. and_then (memory address ∷ []) [] (and_then first_taken [] o >>= end)) e
            ∙ ap
                (λ r.
                  and_then (memory address ∷ []) []
                    (if_made r (first_taken ++ m₂.taken) ([] ++ m₂.freed) end))
                made,
        refl,
        rw (kept) refl,
        ap (λ l. memory address ∷ l)
            (append-nil (first_taken ++ m₂.taken) ∙ ap (λ l. first_taken ++ l) taken),
        release,
      )
