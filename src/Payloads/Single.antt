-- ===== src/Payloads/Single.antt =====
-- The payloads of one view: what the making takes is what the release hands back.
use mathlib.Core.List.{Perm, perm_middle, append_assoc}
use mathlib.Core.List.Perm
use puring.Base.{
  ℕ, suc, ◌^◌, ◌<◌, ◌≡◌, refl, ap, ℤ, pos, to_unsigned_32_of_lt, Option, none, some, Bool, true,
  false, List, [], ◌∷◌, ◌++◌, map,
}
use puring.Buffers.{Freed, memory, view, free_views, free_linear, free_vector, free_buffer_payload}
use puring.Payloads.{Supply, malloc, Region, view_each, views_of}
use puring.Payloads.Whole.{
  Payload, fill_region_vectors, iovecs_serialized, vectors_serialized, serialize_vectored_buffers,
  data_views, data_buffer, data_payload, create_buffer_payload_from_data,
}
use puring.Payloads.Tidy.{Tidy, holds, handed_back, last-one, last-two, map-take, length-view_each}

-- What `free_buffer_payload` of a payload hands back.
abbrev pub release : Payload → List Freed
release (address, p) = free_buffer_payload address p false

module _ {A : Type 0} where
  reversed2 : (a b : A) → Perm (a ∷ b ∷ []) (b ∷ a ∷ [])
  reversed2 a b = last-one (a ∷ []) b

  reversed3 : (a b c : A) → Perm (a ∷ b ∷ c ∷ []) (c ∷ b ∷ a ∷ [])
  reversed3 a b c = Perm.trans (last-one (a ∷ b ∷ []) c) (Perm.cons c (reversed2 a b))

  reversed4 : (a b c d : A) → Perm (a ∷ b ∷ c ∷ d ∷ []) (d ∷ c ∷ b ∷ a ∷ [])
  reversed4 a b c d = Perm.trans (last-one (a ∷ b ∷ c ∷ []) d) (Perm.cons d (reversed3 a b c))

data_views-Tidy :
    (payload buffer : ℕ) (region : Option Region) (given : Option ℕ)
    → Tidy release (data_views payload buffer region given)
unfolding data_views free_buffer_payload free_linear free_vector free_views
data_views-Tidy payload buffer region none =
    handed_back refl (reversed2 (memory buffer) (memory payload))
data_views-Tidy payload buffer none (some views) =
    handed_back refl (reversed3 (memory views) (memory buffer) (memory payload))
data_views-Tidy payload buffer (some r) (some views) =
    holds _ refl refl (reversed4 (view r.id) (memory views) (memory buffer) (memory payload))

data_buffer-Tidy :
    (payload : ℕ) (region : Option Region) (given : Option ℕ × Supply)
    → Tidy release (data_buffer payload region given)
unfolding data_buffer
data_buffer-Tidy payload region (none, supply) = handed_back refl (Perm.refl _)
data_buffer-Tidy payload region (some buffer, supply) =
    data_views-Tidy payload buffer region (malloc supply).0

data_payload-Tidy :
    (region : Option Region) (given : Option ℕ × Supply) → Tidy release (data_payload region given)
unfolding data_payload
data_payload-Tidy region (none, supply) = handed_back refl (Perm.refl [])
data_payload-Tidy region (some payload, supply) = data_buffer-Tidy payload region (malloc supply)

-- However the allocations go, and whether the object can be viewed or not, the payload for the data
-- of a send fails and has handed back all that it had taken, or its release hands back just that.
pub create_buffer_payload_from_data-Tidy :
    (region : Option Region) (supply : Supply)
    → Tidy release (create_buffer_payload_from_data region supply)
unfolding create_buffer_payload_from_data
create_buffer_payload_from_data-Tidy region supply = data_payload-Tidy region (malloc supply)

fill_region_vectors-Tidy :
    (n views vec iovecs : ℕ) (r : List Region × Bool)
    → (r.1 ≡ true → puring.Base.length r.0 ≡ n)
    → Tidy (λ b. free_vector false n (some b)) (fill_region_vectors (pos n) views vec iovecs r)
unfolding fill_region_vectors free_vector free_views
fill_region_vectors-Tidy n views vec iovecs (regions, true) full =
    let entries = map-take view (λ r. r.id) n regions (full refl) in
    holds _ refl refl (
      rw
        (
          entries,
          append_assoc (views_of regions) (memory views ∷ []) (memory iovecs ∷ memory vec ∷ []),
        )
        (three regions))
  where
    three :
        (regions : List Region)
        → Perm
            (views_of regions ++ memory views ∷ memory iovecs ∷ memory vec ∷ [])
            (memory views ∷ memory vec ∷ memory iovecs ∷ views_of regions)
    three regions = Perm.trans (perm_middle (views_of regions) (memory iovecs ∷ memory vec ∷ [])) (
        Perm.cons (memory views) (
          Perm.trans (last-two (views_of regions) (memory iovecs) (memory vec))
            (Perm.swap (memory vec) (memory iovecs) (views_of regions))))
fill_region_vectors-Tidy n views vec iovecs (regions, false) full = handed_back refl (
    Perm.trans (perm_middle (views_of regions) (memory iovecs ∷ memory vec ∷ [])) (
      Perm.cons (memory views) (
        Perm.trans (last-two (views_of regions) (memory iovecs) (memory vec))
          (Perm.swap (memory vec) (memory iovecs) (views_of regions)))))

vectors_serialized-Tidy :
    (items : List (Option Region)) (n : ℕ) (views : Option ℕ) (given : Option ℕ × Supply)
    → Tidy (λ b. free_vector false n (some b)) (vectors_serialized items (pos n) views given)
unfolding vectors_serialized
vectors_serialized-Tidy items n none (none, supply) = handed_back refl (Perm.refl _)
vectors_serialized-Tidy items n none (some vec, supply) = handed_back refl (Perm.refl _)
vectors_serialized-Tidy items n (some views) (none, supply) = handed_back refl (Perm.refl _)
vectors_serialized-Tidy items n (some views) (some vec, supply) = of_iovecs (malloc supply).0
  where
    of_iovecs :
        (given : Option ℕ)
        → Tidy (λ b. free_vector false n (some b)) (iovecs_serialized items (pos n) views vec given)
    of_iovecs none = handed_back refl (Perm.refl _)
    of_iovecs (some iovecs) =
        fill_region_vectors-Tidy n views vec iovecs (view_each n items) (length-view_each n items)

-- The same of `serialize_vectored_buffers`, of a sequence of any length.
pub serialize_vectored_buffers-Tidy :
    (items : List (Option Region)) (n : ℕ) (supply : Supply)
    → Tidy (λ b. free_vector false n (some b)) (serialize_vectored_buffers items (pos n) supply)
unfolding serialize_vectored_buffers
serialize_vectored_buffers-Tidy items n supply =
    vectors_serialized-Tidy items n (malloc supply).0 (malloc (malloc supply).1)
