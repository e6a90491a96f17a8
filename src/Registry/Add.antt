-- ===== src/Registry/Add.antt =====
-- `registry_add`, and the lookup of what it added.
use puring.Base.{
  ℕ, suc, ◌<◌, ◌≡◌, refl, sym, ap, ◌∙◌, ◌≢◌, ◌↔◌, ◌⊎◌, inl, inr, ℤ, pos, negsuc, dec,
  to_signed_of_lt, none, some, arith, get_or, set, length-set, get_or-set_self, get_or-set_ne,
  ℕ_discrete,
}
use puring.IndexStack.{
  free_count, IsTop, IsFree, IsDistinct, pop-IsDistinct, pop-not-IsFree, IsFree-pop,
}
use puring.Store.{Store}
use puring.Registry.Count.{weight, occupied-set}
use puring.Registry.Valid.{IsValid, free_count-dec, IsTop-dec}
use puring.Registry.{RequestRegistry, Entry, zero_slot, filled, slot_at, registry_add, registry_get}

module _ (reg : RequestRegistry) (e : Entry) (s : Store) where
  -- `registry_add` on a registry with no free index answers -1 and changes nothing.
  pub registry_add-full : free_count reg.top ≡ 0 → registry_add reg e s ≡ (negsuc 0, reg, s)
  unfolding registry_add
  registry_add-full h = ground arith

  -- The index that `registry_add` takes where `top` is `n`, and the registry that it leaves.
  abbrev pub next_index : ℕ → ℕ
  next_index n = get_or reg.available_indices n 0

  abbrev pub added : ℕ → RequestRegistry
  added n = record reg {
    top = dec (pos n);
    slots = set reg.slots (next_index n) (filled e (next_index n));
  }

  pub registry_add-eq :
      (n : ℕ)
      → reg.top ≡ pos n
      → ((registry_add reg e s).0 ≡ pos (next_index n)) × ((registry_add reg e s).1 ≡ added n)
  unfolding registry_add
  registry_add-eq n h = (rw h, rw h)

  module _ (n : ℕ) (h : reg.top ≡ pos n) (v : IsValid reg) where
    abbrev i : ℕ
    i = next_index n

    pub in_range : i < reg.size
    in_range = v.bounded n (rw h (omega arith))

    other : (j : ℕ) → j ≢ i → slot_at (added n) j ≡ slot_at reg j
    other j ne = get_or-set_ne reg.slots i j (filled e i) zero_slot (omega arith)

    pub here : slot_at (added n) i ≡ filled e i
    here = get_or-set_self reg.slots i (filled e i) zero_slot (rw v.slots_room in_range)

    distinct' : IsDistinct 0 reg.available_indices (suc n)
    distinct' = rw h at v.distinct

    now_taken : ¬ IsFree 0 reg.available_indices n i
    now_taken = pop-not-IsFree 0 reg.available_indices n distinct'

    vacant' : (m : ℕ) → IsFree 0 reg.available_indices n m → (slot_at (added n) m).future ≡ none
    vacant' m f =
        ap (λ x. x.future) (other m (λ same. now_taken (rw same at f)))
        ∙ v.vacant m (rw h (f.0, omega (arith, f.1), f.2))

    complete' :
        (m : ℕ)
        → m < reg.size
        → (slot_at (added n) m).future ≡ none
        → IsFree 0 reg.available_indices n m
    complete' m hm empty = elim (ℕ_discrete m i) [
      | yes same ↦ absurd (cc (sym (ap (λ x. x.future) here) ∙ (rw same at empty)))
      | no ne ↦
          let was = v.complete m hm (sym (ap (λ x. x.future) (other m ne)) ∙ empty) in
          elim (IsFree-pop 0 reg.available_indices n m (rw h at was)) [
            | inl f ↦ f
            | inr same ↦ absurd (ne (sym same))
          ]
    ]

    pub added-IsValid : IsValid (added n)
    added-IsValid = record {
      small = v.small;
      slots_room = length-set reg.slots i (filled e i) ∙ v.slots_room;
      room = v.room;
      low = IsTop-dec n;
      high = rw (free_count-dec n) (omega (arith, v.high, ap free_count h));
      distinct = rw (free_count-dec n) (pop-IsDistinct 0 reg.available_indices n distinct');
      bounded = rw (free_count-dec n) (λ j hj. v.bounded j (rw h (omega arith)));
      vacant = rw (free_count-dec n) vacant';
      complete = rw (free_count-dec n) complete';
      counted = rw (free_count-dec n) (
          omega (
            arith,
            v.counted,
            ap free_count h,
            ap weight (v.vacant i (rw h (n, omega arith, refl))),
            occupied-set reg.slots i (filled e i) (rw v.slots_room in_range),
          ));
    }

    -- On a valid registry where an index is free, `registry_add` answers one whose slot held no
    -- request, fills that slot with its arguments, tagged with the index, changes no other slot,
    -- takes one index off the stack, and keeps the registry valid.
    pub registry_add_lem :
        let (index, reg', _) = registry_add reg e s in
        (index ≡ pos i)
        × (i < reg.size)
        × ((slot_at reg i).future ≡ none)
        × (slot_at reg' i ≡ filled e i)
        × ((j : ℕ) → j ≢ i → slot_at reg' j ≡ slot_at reg j)
        × (suc (free_count reg'.top) ≡ free_count reg.top)
        × IsValid reg'
    registry_add_lem =
        let (index, left) = registry_add-eq n h in
        (
          index,
          in_range,
          v.vacant i (rw h (n, omega arith, refl)),
          rw left here,
          rw left other,
          rw (left, free_count-dec n, h),
          rw left added-IsValid,
        )

    -- On a valid registry with a free index, the lookup of the index that `registry_add` answers
    -- finds its slot.
    pub registry_get-registry_add :
        registry_get (registry_add reg e s).1 (registry_add reg e s).0 ≡ some i
    unfolding registry_get
    registry_get-registry_add =
        let (index, left) = registry_add-eq n h in
        rw (index, left, to_signed_of_lt reg.size v.small) (ground (arith, in_range))

pub top-cases : (top : ℤ) → IsTop top → (free_count top ≡ 0) ⊎ ((n : ℕ) × (top ≡ pos n))
top-cases (pos n) h = inr (n, refl)
top-cases (negsuc n) h = inl refl

pos-not-negsuc : (m n : ℕ) → pos m ≡ negsuc n → ⊥
pos-not-negsuc m n h = cc

-- `registry_add` on a valid registry answers -1 exactly when every slot holds a request.
registry_add-full_iff :
    (reg : RequestRegistry) (e : Entry) (s : Store)
    → IsValid reg
    → ((registry_add reg e s).0 ≡ negsuc 0)
      ↔ ((i : ℕ) → i < reg.size → (slot_at reg i).future ≢ none)
registry_add-full_iff reg e s v = elim (top-cases reg.top v.low) [
  | inl full ↦ (
    (λ h i hi empty. let (j, p, q) = v.complete i hi empty in omega (arith, full)),
    (λ h. ap (λ x. x.0) (registry_add-full reg e s full)),
  )
  | inr (n, h) ↦ (
    (λ minus i hi empty.
        pos-not-negsuc (next_index reg e s n) 0 (sym (registry_add_lem reg e s n h v).0 ∙ minus)),
    (λ held. absurd (
        held (next_index reg e s n) (registry_add_lem reg e s n h v).1
          (registry_add_lem reg e s n h v).2)),
  )
]
