-- ===== src/Registry/Remove.antt =====
-- `registry_remove`, and its undoing of `registry_add`.
use puring.Base.{
  ℕ, zero, suc, ◌^◌, ◌<◌, ◌≡◌, refl, sym, ap, ◌∙◌, ◌≢◌, inl, inr, ℤ, pos, negsuc, dec,
  to_signed_of_lt, true, false, Option, none, some, arith, length, get_or, set, ltb, ltb_ℤ,
  length-set, get_or-set_self, get_or-set_ne, ℕ_discrete,
}
use puring.IndexStack.{free_count, IsTop, push-IsDistinct, IsFree-push, push-IsFree}
use puring.Store.{Store}
use puring.Registry.Count.{weight, occupied-set, weight-le-occupied}
use puring.Registry.Valid.{Free, IsValid, inc-IsTop}
use puring.Registry.{RequestRegistry, zero_slot, cleared, slot_at, release_slot, registry_remove}

weight-positive : (o : Option ℕ) → o ≢ none → weight o ≡ 1
weight-positive none h = absurd (h refl)
weight-positive (some x) h = refl

not-full : (top : ℤ) (n : ℕ) → IsTop top → free_count top < n → ltb_ℤ top (dec (pos n)) ≡ true
not-full top zero low h = absurd (omega arith)
not-full (pos m) (suc n) low h = ground arith
not-full (negsuc m) (suc n) low h = refl

module _ (reg : RequestRegistry) (i : ℕ) where
  -- The registry that `registry_remove` leaves.
  abbrev pub removed : RequestRegistry
  removed = record reg {
    slots = set reg.slots i (cleared (slot_at reg i));
    top = pos (free_count reg.top);
    available_indices = set reg.available_indices (free_count reg.top) i;
  }

  registry_remove-eq :
      (s : Store)
      → reg.size < 2 ^ 31
      → IsTop reg.top
      → i < reg.size
      → free_count reg.top < reg.size
      → registry_remove reg (pos i) s ≡ some (removed, release_slot (slot_at reg i) s)
  unfolding registry_remove
  registry_remove-eq s small low hi h =
      let inside : ltb i reg.size ≡ true = ground arith in
      rw (
        to_signed_of_lt reg.size small,
        inside,
        not-full reg.top reg.size low h,
        inc-IsTop reg.top low,
      )

module _ (reg : RequestRegistry) (i : ℕ) (v : IsValid reg) (hi : i < reg.size)
    (held : (slot_at reg i).future ≢ none) where
  abbrev c : ℕ
  c = free_count reg.top

  has_room : c < reg.size
  has_room = omega (
    arith,
    v.counted,
    weight-le-occupied reg.slots i,
    weight-positive (slot_at reg i).future held,
  )

  room' : c < length reg.available_indices
  room' = rw v.room has_room

  other : (j : ℕ) → j ≢ i → slot_at (removed reg i) j ≡ slot_at reg j
  other j ne = get_or-set_ne reg.slots i j _ zero_slot (omega arith)

  here : slot_at (removed reg i) i ≡ cleared (slot_at reg i)
  here = get_or-set_self reg.slots i _ zero_slot (rw v.slots_room hi)

  vacant' : (m : ℕ) → Free (removed reg i) m → (slot_at (removed reg i) m).future ≡ none
  vacant' m f = elim (ℕ_discrete m i) [
    | yes same ↦ rw same (ap (λ x. x.future) here)
    | no ne ↦ elim (push-IsFree 0 reg.available_indices c i m room' f) [
      | inl f' ↦ ap (λ x. x.future) (other m ne) ∙ v.vacant m f'
      | inr same ↦ absurd (ne (sym same))
    ]
  ]

  complete' :
      (m : ℕ) → m < reg.size → (slot_at (removed reg i) m).future ≡ none → Free (removed reg i) m
  complete' m hm empty = elim (ℕ_discrete m i) [
    | yes same ↦ IsFree-push 0 reg.available_indices c i m room' (inr (sym same))
    | no ne ↦
        IsFree-push 0 reg.available_indices c i m room'
          (inl (v.complete m hm (sym (ap (λ x. x.future) (other m ne)) ∙ empty)))
  ]

  bounded' : (j : ℕ) → j < suc c → get_or (removed reg i).available_indices j 0 < reg.size
  bounded' j hj = elim (ℕ_discrete j c) [
    | yes top ↦ rw top (rw (get_or-set_self reg.available_indices c i 0 room') hi)
    | no low ↦
        rw (get_or-set_ne reg.available_indices c j i 0 (omega arith)) (v.bounded j (omega arith))
  ]

  removed-IsValid : IsValid (removed reg i)
  removed-IsValid = record {
    small = v.small;
    slots_room = length-set reg.slots i _ ∙ v.slots_room;
    room = length-set reg.available_indices c i ∙ v.room;
    low = refl;
    high = has_room;
    distinct =
        push-IsDistinct 0 reg.available_indices c i room' v.distinct (λ f. held (v.vacant i f));
    bounded = bounded';
    vacant = vacant';
    complete = complete';
    counted = omega (
      arith,
      v.counted,
      weight-positive (slot_at reg i).future held,
      occupied-set reg.slots i (cleared (slot_at reg i)) (rw v.slots_room hi),
    );
  }

  -- Removing a request of a valid registry, in range and with a future, never aborts. It releases
  -- what the slot holds, clears the slot, puts its index back on the stack, changes no other slot,
  -- and keeps the registry valid.
  pub registry_remove_lem :
      (s : Store)
      → (registry_remove reg (pos i) s ≡ some (removed reg i, release_slot (slot_at reg i) s))
        × (slot_at (removed reg i) i ≡ cleared (slot_at reg i))
        × ((j : ℕ) → j ≢ i → slot_at (removed reg i) j ≡ slot_at reg j)
        × Free (removed reg i) i
        × (free_count (removed reg i).top ≡ suc (free_count reg.top))
        × IsValid (removed reg i)
  registry_remove_lem s = (
    registry_remove-eq reg i s v.small v.low hi has_room,
    here,
    other,
    IsFree-push 0 reg.available_indices c i i room' (inr refl),
    refl,
    removed-IsValid,
  )

not_below_full :
    (top : ℤ) (n : ℕ) → IsTop top → free_count top ≡ n → ltb_ℤ top (dec (pos n)) ≡ false
not_below_full (pos m) zero low h = absurd (omega arith)
not_below_full (pos m) (suc n) low h = ground arith
not_below_full (negsuc zero) zero low h = ground arith
not_below_full (negsuc (suc m)) zero low h = cc
not_below_full (negsuc m) (suc n) low h = absurd (omega arith)

-- On a valid registry all of whose slots are free, removing any index in range calls `abort`.
pub registry_remove-aborts :
    (reg : RequestRegistry) (i : ℕ) (s : Store)
    → IsValid reg
    → i < reg.size
    → free_count reg.top ≡ reg.size
    → registry_remove reg (pos i) s ≡ none
unfolding registry_remove
registry_remove-aborts reg i s v hi full =
    let inside : ltb i reg.size ≡ true = ground arith in
    rw (to_signed_of_lt reg.size v.small, inside, not_below_full reg.top reg.size v.low full) refl
