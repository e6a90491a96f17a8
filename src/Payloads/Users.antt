-- ===== src/Payloads/Users.antt =====
-- A payload of the mode FIXED on the buffers of the user.
use mathlib.Core.List.{Perm, perm_append_comm, perm_middle, append-nil}
use mathlib.Core.List.Perm
use puring.Base.{
  ℕ, ◌≡◌, refl, ap, ◌∙◌, ℤ, pos, Option, none, some, true, false, List, [], ◌∷◌, ◌++◌, map, length,
}
use puring.Buffers.{
  fixed, payload_user, PayloadType, BufferPayload, memory, view, free_views, free_linear,
  free_vector, free_buffer_payload,
}
use puring.Payloads.{Supply, malloc, Region, Made, view_each, views_of}
use puring.Payloads.Whole.{Payload}
use puring.Payloads.Tidy.{map-take}
use puring.Payloads.Pairs.{
  Fresh, pair_viewed, view_iovecs, view_vector, view_linear, view_views, serialize_buffers,
}
use puring.Payloads.Create.{
  and_then, ◌>>=◌, PyBuffers, BufferMetadata, get_buffer_metadata, pair_part, mode_part, finished,
  payload_allocated, with_metadata, create_buffer_payload,
}

-- Items that can all be viewed.
view_each-some :
    (regions : List Region) → view_each (length regions) (map some regions) ≡ (regions, true)
unfolding view_each
view_each-some [] = refl
view_each-some (r ∷ regions) = ap (λ x. (r ∷ x.0, x.1)) (view_each-some regions)

flatten :
    {A : Type 0} (l : List A) (a b c d e : A)
    → ((l ++ a ∷ []) ++ b ∷ []) ++ (c ∷ d ∷ []) ++ e ∷ [] ≡ l ++ a ∷ b ∷ c ∷ d ∷ e ∷ []
flatten [] a b c d e = refl
flatten (x ∷ l) a b c d e = ap (◌∷◌ x) (flatten l a b c d e)

-- The last of some come first.
to_front :
    {A : Type 0} (l : List A) (a b c d e : A)
    → Perm (l ++ a ∷ b ∷ c ∷ d ∷ e ∷ []) (e ∷ a ∷ b ∷ d ∷ c ∷ l)
to_front l a b c d e = Perm.trans (perm_append_comm l (a ∷ b ∷ c ∷ d ∷ e ∷ [])) (
    Perm.trans (perm_middle (a ∷ b ∷ c ∷ d ∷ []) l)
      (Perm.cons e (Perm.cons a (Perm.cons b (Perm.swap d c l)))))

module _ (type : PayloadType) (address : ℕ) (junk : BufferPayload) (f second : Fresh)
    (bgid bufsize : ℤ) (views linear vec iovecs : ℕ) (regions : List Region) where
  abbrev n : ℕ
  n = length regions

  abbrev asked : BufferMetadata
  asked = record { payload_origin = payload_user; amount = pos n; bufsize = bufsize }

  abbrev unfilled : BufferPayload
  unfilled = record junk { bgid = pos 0; linear = none; vector = none }

  serialized :
      f.supply ≡ some views ∷ some linear ∷ some vec ∷ some iovecs ∷ []
      → f.items ≡ map some regions
      → serialize_buffers address (record junk { bgid = pos 0 }) (pos n) f
        ≡ some (pair_viewed address unfilled (pos n) f views linear vec iovecs (regions, true))
  unfolding serialize_buffers view_views view_linear view_vector view_iovecs
  serialized supply items =
      ap (λ (s : Supply). view_views address unfilled (pos n) f (malloc s)) supply
      ∙ ap
          (λ (l : List (Option Region)).
            some (pair_viewed address unfilled (pos n) f views linear vec iovecs (view_each n l)))
          items
      ∙ ap (λ r. some (pair_viewed address unfilled (pos n) f views linear vec iovecs r))
          (view_each-some regions)

  -- `create_buffer_payload` in the mode FIXED, of the buffers of a sequence that `_get_buffer_metadata`
  -- counts, where all allocations succeed and every item can be viewed: the forced release of the
  -- payload hands back all memory and all views that were taken, each once, although linear buffers
  -- and vectors are on the same memory; and without force it hands back nothing.
  pub create_buffer_payload-Tidy :
      (buffers : PyBuffers) (amount size : ℤ)
      → get_buffer_metadata buffers amount size ≡ some asked
      → f.supply ≡ some views ∷ some linear ∷ some vec ∷ some iovecs ∷ []
      → f.items ≡ map some regions
      → (m : Made Payload) × (p : BufferPayload) × (create_buffer_payload fixed type buffers amount
            size
            (some address)
            junk
            f
            second
            bgid
          ≡ some m)
        × (m.result ≡ some (address, p))
        × (m.freed ≡ [])
        × Perm (free_buffer_payload address p true) m.taken
        × (free_buffer_payload address p false ≡ [])
  unfolding create_buffer_payload payload_allocated mode_part pair_part pair_viewed
      free_buffer_payload free_linear free_vector free_views
  create_buffer_payload-Tidy buffers amount size known supply items = (
    _,
    _,
    ap (λ o. with_metadata o λ d. payload_allocated fixed type (some address) junk d f second bgid)
          known
        ∙ ap (λ o. and_then (memory address ∷ []) [] (o >>= finished address fixed asked))
            (serialized supply items),
    refl,
    refl,
    rw
        (
          map-take view (λ r. r.id) n regions refl,
          flatten (views_of regions) (memory views) (memory linear) (memory iovecs) (memory vec)
              (memory address),
          append-nil (views_of regions),
        )
        (to_front (views_of regions) (memory views) (memory linear) (memory iovecs) (memory vec)
          (memory address)),
    refl,
  )
