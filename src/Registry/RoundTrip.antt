-- ===== src/Registry/RoundTrip.antt =====
-- `registry_remove` after `registry_add`.
use puring.Base.{
  ℕ, ◌+◌, ◌-◌, ◌==◌, ◌≡◌, refl, sym, ap, ◌∙◌, ◌≢◌, pos, Option, none, some, Bool, false, arith,
  set-get_or, if◌then◌else◌,
}
use puring.Store.{Store, incref, incref?, decref?, free_payload?, free?}
use puring.Registry.Valid.{IsValid, free_count-dec}
use puring.Registry.Add.{next_index, added, here, in_range, added-IsValid, registry_add-eq}
use puring.Registry.Remove.{removed, registry_remove_lem}
use puring.Registry.{
  RequestSlot, RequestRegistry, Entry, filled, slot_at, release_slot, registry_add, registry_remove,
}

-- 1 where the reference is to `o`.
abbrev pub count : ℕ → Option ℕ → ℕ
count o none = 0
count o (some p) = if p == o then 1 else 0

pub refs-incref? : (o : ℕ) (p : Option ℕ) (s : Store) → (incref? p s).refs o ≡ s.refs o + count o p
refs-incref? o none s = omega arith
refs-incref? o (some p) s = ground arith

pub refs-decref? : (o : ℕ) (p : Option ℕ) (s : Store) → (decref? p s).refs o ≡ s.refs o - count o p
refs-decref? o none s = omega arith
refs-decref? o (some p) s = ground arith

pub refs-free_payload? :
    (o : ℕ) (p : Option ℕ) (force : Bool) (s : Store) → (free_payload? p force s).refs o ≡ s.refs o
refs-free_payload? o none force s = refl
refs-free_payload? o (some p) force s = refl

pub refs-free? : (o : ℕ) (p : Option ℕ) (s : Store) → (free? p s).refs o ≡ s.refs o
refs-free? o none s = refl
refs-free? o (some p) s = refl

-- What a slot refers to.
abbrev pub held : ℕ → RequestSlot → ℕ
held o slot = count o slot.future + count o slot.socket + count o slot.file

pub refs-release_slot :
    (o : ℕ) (slot : RequestSlot) (s : Store) → (release_slot slot s).refs o ≡ s.refs o - held o slot
refs-release_slot o slot s =
    let s₁ = decref? slot.future s in
    let s₂ = free_payload? slot.buffer_payload false s₁ in
    let s₃ = decref? slot.socket s₂ in
    let s₄ = decref? slot.file s₃ in
    omega (
      arith,
      refs-free? o slot.msghdr s₄,
      refs-decref? o slot.file s₃,
      refs-decref? o slot.socket s₂,
      refs-free_payload? o slot.buffer_payload false s₁,
      refs-decref? o slot.future s,
    )

-- The reference counts that `registry_add` takes are those that `registry_remove` gives back.
refs-release_slot-incref :
    (o i : ℕ) (e : Entry) (s : Store)
    → (release_slot (filled e i) (incref? e.file (incref? e.socket (incref e.future s)))).refs o
      ≡ s.refs o
refs-release_slot-incref o i e s =
    let s₁ = incref? (some e.future) s in
    let s₂ = incref? e.socket s₁ in
    omega (
      arith,
      refs-release_slot o (filled e i) (incref? e.file s₂),
      refs-incref? o e.file s₂,
      refs-incref? o e.socket s₁,
      refs-incref? o (some e.future) s,
    )

module _ (reg : RequestRegistry) (e : Entry) (s : Store) (n : ℕ) (h : reg.top ≡ pos n)
    (v : IsValid reg) where
  abbrev i : ℕ
  i = next_index reg e s n

  abbrev left : RequestRegistry
  left = added reg e s n

  pub store-registry_add :
      (registry_add reg e s).2 ≡ incref? e.file (incref? e.socket (incref e.future s))
  unfolding registry_add
  store-registry_add = rw h

  pub is_held : (slot_at left i).future ≢ none
  is_held empty = cc (sym (ap (λ x. x.future) (here reg e s n h v)) ∙ empty)

  pub top-removed : (removed left i).top ≡ reg.top
  top-removed = ap pos (free_count-dec n) ∙ sym h

  pub indices-removed : (removed left i).available_indices ≡ reg.available_indices
  indices-removed = rw (free_count-dec n) (set-get_or reg.available_indices n 0)

  -- On a valid registry with a free index, removing the request just added succeeds, restores the
  -- stack of free indices, and gives back every reference that the addition took.
  pub registry_remove-registry_add :
      (reg' : RequestRegistry) × (s' : Store) × (registry_remove
          (registry_add reg e s).1
          (registry_add reg e s).0
          (registry_add reg e s).2
        ≡ some (reg', s'))
      × (reg'.top ≡ reg.top)
      × (reg'.available_indices ≡ reg.available_indices)
      × ((o : ℕ) → s'.refs o ≡ s.refs o)
  registry_remove-registry_add =
      let (index, made) = registry_add-eq reg e s n h in
      let (done, _, _, _, _, _) =
        registry_remove_lem left i (added-IsValid reg e s n h v) (in_range reg e s n h v) is_held
          (registry_add reg e s).2 in
      (
        removed left i,
        release_slot (slot_at left i) (registry_add reg e s).2,
        rw (index, made) done,
        top-removed,
        indices-removed,
        rw (store-registry_add, here reg e s n h v) (λ o. refs-release_slot-incref o i e s),
      )
