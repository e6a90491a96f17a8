-- ===== src/Registry/Valid.antt =====
-- The invariant of `RequestRegistry`: a slot is free exactly when it holds no future.
use puring.Base.{
  ℕ, zero, suc, ◌+◌, ◌^◌, ◌<◌, ◌≤◌, ◌==◌, ◌≡◌, refl, ap, ℤ, pos, negsuc, inc, dec, to_signed_of_lt,
  true, none, some, arith, length, get_or, range, replicate, length-range, get_or-range,
  length-replicate, get_or-replicate, if◌then◌else◌,
}
use puring.IndexStack.{free_count, IsTop, IsFree, IsDistinct}
use puring.Registry.Count.{occupied, occupied-replicate}
use puring.Registry.{RequestRegistry, zero_slot, slot_at, registry_new}

-- The index is on the stack.
abbrev pub Free : RequestRegistry → ℕ → Type 0
Free reg i = IsFree 0 reg.available_indices (free_count reg.top) i

pub record IsValid (reg : RequestRegistry) : Type 0 where
  pub small : reg.size < 2 ^ 31
  pub slots_room : length reg.slots ≡ reg.size
  pub room : length reg.available_indices ≡ reg.size
  pub low : IsTop reg.top
  pub high : free_count reg.top ≤ reg.size
  pub distinct : IsDistinct 0 reg.available_indices (free_count reg.top)
  pub bounded : (j : ℕ) → j < free_count reg.top → get_or reg.available_indices j 0 < reg.size
  -- a free slot holds no future, and a slot that holds none is free
  pub vacant : (i : ℕ) → Free reg i → (slot_at reg i).future ≡ none
  pub complete : (i : ℕ) → i < reg.size → (slot_at reg i).future ≡ none → Free reg i
  -- the free indices and the requests make up the size
  pub counted : free_count reg.top + occupied reg.slots ≡ reg.size

pub free_count-dec : (n : ℕ) → free_count (dec (pos n)) ≡ n
free_count-dec zero = refl
free_count-dec (suc n) = refl

pub IsTop-dec : (n : ℕ) → IsTop (dec (pos n))
IsTop-dec zero = refl
IsTop-dec (suc n) = refl

pub inc-IsTop : (top : ℤ) → IsTop top → inc top ≡ pos (free_count top)
inc-IsTop (pos n) h = refl
inc-IsTop (negsuc zero) h = refl
inc-IsTop (negsuc (suc n)) h = cc

-- A registry of `n` slots, none of them used.
abbrev pub all_free : ℕ → RequestRegistry
all_free n = record {
  slots = replicate n zero_slot;
  available_indices = range 0 n;
  top = dec (pos n);
  size = n;
}

all_free-IsValid : (n : ℕ) → n < 2 ^ 31 → IsValid (all_free n)
all_free-IsValid n h = record {
  small = h;
  slots_room = length-replicate n zero_slot;
  room = length-range 0 n;
  low = rw (free_count-dec n);
  high = rw (free_count-dec n) (omega arith);
  distinct =
      rw (free_count-dec n)
        (λ i j hi hj e. omega (arith, e, get_or-range 0 n i 0 hi, get_or-range 0 n j 0 hj));
  bounded = rw (free_count-dec n) (λ j hj. omega (arith, get_or-range 0 n j 0 hj));
  vacant = λ i f. ap (λ x. x.future) (get_or-replicate n i zero_slot);
  complete = rw (free_count-dec n) (λ i hi e. (i, hi, omega (arith, get_or-range 0 n i 0 hi)));
  counted = rw (free_count-dec n) (omega (arith, occupied-replicate n));
}

-- Where its allocations succeed and the size is an `int`, a new registry is valid and all its slots
-- are free; 0 asks for 25000 of them.
pub registry_new-IsValid :
    (size : ℕ)
    → size < 2 ^ 31
    → let n = if size == 0 then 25000 else size in
      (registry_new true true true size ≡ some (all_free n))
      × IsValid (all_free n)
      × (free_count (all_free n).top ≡ n)
unfolding registry_new
registry_new-IsValid size h =
    let n = if size == 0 then 25000 else size in
    let small : n < 2 ^ 31 = ground arith in
    (rw (to_signed_of_lt n small), all_free-IsValid n small, free_count-dec n)
