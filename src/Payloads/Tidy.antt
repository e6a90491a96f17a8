-- ===== src/Payloads/Tidy.antt =====
-- What the making of a payload takes is what its release hands back.
use mathlib.Core.List.{Perm, perm_middle, append-nil, append_assoc}
use mathlib.Core.List.Perm
use puring.Base.{
  is_some, ℕ, zero, suc, ◌^◌, ◌<◌, ◌≡◌, refl, ap, ℤ, pos, to_unsigned_32_of_lt, Option, none, some,
  Bool, true, false, List, [], ◌∷◌, ◌++◌, map, length, take, arith,
}
use puring.Buffers.{Freed, memory, view, free_views, free_linear, free_vector}
use puring.Payloads.{
  Supply, malloc, Region, Made, alloc_each, view_each, linear_at, iovec_at, fill_linear,
  array_linear, create_linear_buffers, fill_vectored, iovecs_vectored, array_vectored,
  create_vectored_buffers, views_of, fill_views, arrays_serialized, serialize_linear_buffers,
}

-- What is made holds all that was taken, which its release hands back, each once; and where nothing is
-- made, all that was taken has been handed back, each once.
pub data Tidy {A : Type 0} (release : A → List Freed) (m : Made A) : Type 0 where
  holds : (a : A) → m.result ≡ some a → m.freed ≡ [] → Perm (release a) m.taken → Tidy release m
  handed_back : m.result ≡ none → Perm m.freed m.taken → Tidy release m

pub last-one : {A : Type 0} (l : List A) (a : A) → Perm (l ++ a ∷ []) (a ∷ l)
last-one l a = (rw (append-nil l) at (perm_middle {a = a} l []))

pub last-two : {A : Type 0} (l : List A) (a b : A) → Perm (l ++ a ∷ b ∷ []) (a ∷ b ∷ l)
last-two l a b = Perm.trans (perm_middle l (b ∷ [])) (Perm.cons a (last-one l b))

length-alloc_each :
    (n : ℕ) (supply : Supply) → (alloc_each n supply).1 ≡ true → length (alloc_each n supply).0 ≡ n
unfolding alloc_each
length-alloc_each zero supply all = refl
length-alloc_each (suc n) [] all = absurd (let e : false ≡ true = all in cc)
length-alloc_each (suc n) (none ∷ supply) all = absurd (let e : false ≡ true = all in cc)
length-alloc_each (suc n) (some p ∷ supply) all = ap suc (length-alloc_each n supply all)

pub length-view_each :
    (n : ℕ) (items : List (Option Region))
    → (view_each n items).1 ≡ true
    → length (view_each n items).0 ≡ n
unfolding view_each
length-view_each zero items all = refl
length-view_each (suc n) [] all = absurd (let e : false ≡ true = all in cc)
length-view_each (suc n) (none ∷ items) all = absurd (let e : false ≡ true = all in cc)
length-view_each (suc n) (some r ∷ items) all = ap suc (length-view_each n items all)

-- All elements of the list are among the first `n`.
pub map-take :
    {A B C : Type 0} (f : B → C) (g : A → B) (n : ℕ) (l : List A)
    → length l ≡ n
    → map f (take n (map g l)) ≡ map (λ a. f (g a)) l
map-take f g zero [] h = refl
map-take f g zero (x ∷ l) h = absurd (omega arith)
map-take f g (suc n) [] h = absurd (omega arith)
map-take f g (suc n) (x ∷ l) h = ap (λ xs. f (g x) ∷ xs) (map-take f g n l (omega arith))

module _ (bufsize : ℤ) where
  fill_linear-Tidy :
      (n array : ℕ) (r : List ℕ × Bool)
      → (r.1 ≡ true → length r.0 ≡ n)
      → Tidy (λ b. free_linear true n (some b)) (fill_linear bufsize array r)
  unfolding fill_linear free_linear free_views
  fill_linear-Tidy n array (buffers, true) full =
      let entries = map-take (λ e. memory e.buffer) (linear_at bufsize) n buffers (full refl) in
      holds _ refl refl (
        rw (entries, append-nil (map memory buffers))
          (last-one (map memory buffers) (memory array)))
  fill_linear-Tidy n array (buffers, false) full =
      handed_back refl (last-one (map memory buffers) (memory array))

  pub array_linear-Tidy :
      (n : ℕ) (given : Option ℕ × Supply)
      → Tidy (λ b. free_linear true n (some b)) (array_linear n bufsize given)
  unfolding array_linear
  array_linear-Tidy n (none, supply) = handed_back refl (Perm.refl [])
  array_linear-Tidy n (some array, supply) =
      fill_linear-Tidy n array (alloc_each n supply) (length-alloc_each n supply)

  fill_vectored-Tidy :
      (n vec iovecs : ℕ) (r : List ℕ × Bool)
      → n < 2 ^ 32
      → (r.1 ≡ true → length r.0 ≡ n)
      → Tidy (λ b. free_vector true n (some b)) (fill_vectored (pos n) bufsize vec iovecs r)
  unfolding fill_vectored free_vector free_views
  fill_vectored-Tidy n vec iovecs (buffers, true) small full =
      let entries = map-take (λ e. memory e.iov_base) (iovec_at bufsize) n buffers (full refl) in
      holds _ refl refl (
        rw (to_unsigned_32_of_lt n small, entries, append-nil (map memory buffers))
          (Perm.trans (last-two (map memory buffers) (memory iovecs) (memory vec))
            (Perm.swap (memory vec) (memory iovecs) (map memory buffers))))
  fill_vectored-Tidy n vec iovecs (buffers, false) small full = handed_back refl (
      Perm.trans (last-two (map memory buffers) (memory iovecs) (memory vec))
        (Perm.swap (memory vec) (memory iovecs) (map memory buffers)))

  iovecs_vectored-Tidy :
      (n vec : ℕ) (given : Option ℕ × Supply)
      → n < 2 ^ 32
      → Tidy (λ b. free_vector true n (some b)) (iovecs_vectored (pos n) bufsize vec given)
  unfolding iovecs_vectored
  iovecs_vectored-Tidy n vec (none, supply) small = handed_back refl (Perm.refl _)
  iovecs_vectored-Tidy n vec (some iovecs, supply) small =
      fill_vectored-Tidy n vec iovecs (alloc_each n supply) small (length-alloc_each n supply)

  array_vectored-Tidy :
      (n : ℕ) (given : Option ℕ × Supply)
      → n < 2 ^ 32
      → Tidy (λ b. free_vector true n (some b)) (array_vectored (pos n) bufsize given)
  unfolding array_vectored
  array_vectored-Tidy n (none, supply) small = handed_back refl (Perm.refl [])
  array_vectored-Tidy n (some vec, supply) small = iovecs_vectored-Tidy n vec (malloc supply) small

  fill_linear-all :
      (array : ℕ) (r : List ℕ × Bool) → is_some (fill_linear bufsize array r).result ≡ r.1
  unfolding fill_linear
  fill_linear-all array (buffers, true) = refl
  fill_linear-all array (buffers, false) = refl

  fill_vectored-all :
      (len : ℤ) (vec iovecs : ℕ) (r : List ℕ × Bool)
      → is_some (fill_vectored len bufsize vec iovecs r).result ≡ r.1
  unfolding fill_vectored
  fill_vectored-all len vec iovecs (buffers, true) = refl
  fill_vectored-all len vec iovecs (buffers, false) = refl

  create_linear_buffers-all :
      (n : ℕ) (supply : Supply)
      → is_some (create_linear_buffers (pos n) bufsize supply).result
        ≡ (alloc_each (suc n) supply).1
  unfolding create_linear_buffers array_linear alloc_each
  create_linear_buffers-all n [] = refl
  create_linear_buffers-all n (none ∷ supply) = refl
  create_linear_buffers-all n (some p ∷ supply) = fill_linear-all p (alloc_each n supply)

  create_vectored_buffers-all :
      (n : ℕ) (supply : Supply)
      → is_some (create_vectored_buffers (pos n) bufsize supply).result
        ≡ (alloc_each (suc (suc n)) supply).1
  unfolding create_vectored_buffers array_vectored iovecs_vectored alloc_each
  create_vectored_buffers-all n [] = refl
  create_vectored_buffers-all n (none ∷ supply) = refl
  create_vectored_buffers-all n (some p ∷ []) = refl
  create_vectored_buffers-all n (some p ∷ none ∷ supply) = refl
  create_vectored_buffers-all n (some p ∷ some q ∷ supply) =
      fill_vectored-all (pos n) p q (alloc_each n supply)

  -- `create_linear_buffers` and `create_vectored_buffers` of a number that fits an `unsigned` succeed
  -- exactly if each of their allocations does, the number and one or two more. However these go, they
  -- lose no memory and free none twice: they fail and have handed back all that they had allocated,
  -- or the release of what they have made, of the origin RUNTIME and with its number as the amount,
  -- hands back just that.
  pub create_buffers-Tidy :
      (n : ℕ) (supply : Supply)
      → n < 2 ^ 32
      → (is_some (create_linear_buffers (pos n) bufsize supply).result
          ≡ (alloc_each (suc n) supply).1)
        × Tidy (λ b. free_linear true n (some b)) (create_linear_buffers (pos n) bufsize supply)
        × (is_some (create_vectored_buffers (pos n) bufsize supply).result
            ≡ (alloc_each (suc (suc n)) supply).1)
        × Tidy (λ b. free_vector true n (some b)) (create_vectored_buffers (pos n) bufsize supply)
  unfolding create_linear_buffers create_vectored_buffers
  create_buffers-Tidy n supply small = (
    create_linear_buffers-all n supply,
    array_linear-Tidy n (malloc supply),
    create_vectored_buffers-all n supply,
    array_vectored-Tidy n (malloc supply) small,
  )

fill_views-Tidy :
    (n views buffers : ℕ) (r : List Region × Bool)
    → (r.1 ≡ true → length r.0 ≡ n)
    → Tidy (λ b. free_linear false n (some b)) (fill_views views buffers r)
unfolding fill_views free_linear free_views
fill_views-Tidy n views buffers (regions, true) full =
    let entries = map-take view (λ r. r.id) n regions (full refl) in
    holds _ refl refl (
      rw (entries, append_assoc (views_of regions) (memory views ∷ []) (memory buffers ∷ []))
        (last-two (views_of regions) (memory views) (memory buffers)))
fill_views-Tidy n views buffers (regions, false) full =
    handed_back refl (last-two (views_of regions) (memory views) (memory buffers))

arrays_serialized-Tidy :
    (items : List (Option Region)) (n : ℕ) (views buffers : Option ℕ)
    → Tidy (λ b. free_linear false n (some b)) (arrays_serialized n items views buffers)
unfolding arrays_serialized
arrays_serialized-Tidy items n (some views) (some buffers) =
    fill_views-Tidy n views buffers (view_each n items) (length-view_each n items)
arrays_serialized-Tidy items n (some views) none = handed_back refl (Perm.refl _)
arrays_serialized-Tidy items n none (some buffers) = handed_back refl (Perm.refl _)
arrays_serialized-Tidy items n none none = handed_back refl (Perm.refl _)

-- However the allocations go and whichever items can be had and viewed, `serialize_linear_buffers`
-- fails and has handed back all memory and views, or what it has made hands back just that.
pub serialize_linear_buffers-Tidy :
    (items : List (Option Region)) (n : ℕ) (supply : Supply)
    → Tidy (λ b. free_linear false n (some b)) (serialize_linear_buffers items (pos n) supply)
unfolding serialize_linear_buffers
serialize_linear_buffers-Tidy items n supply =
    arrays_serialized-Tidy items n (malloc supply).0 (malloc (malloc supply).1).0
