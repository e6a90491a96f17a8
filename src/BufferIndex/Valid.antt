-- ===== src/BufferIndex/Valid.antt =====
-- The invariant of `FixedBufferIdxRegistry`: its free indices are distinct and in range.
use puring.Base.{
  ℕ, zero, suc, ◌^◌, ◌<◌, ◌≤◌, ◌==◌, ◌≡◌, refl, sym, ap, ◌∙◌, ℤ, pos, negsuc, inc, dec,
  to_signed_of_lt, true, some, map, arith, length, get_or, set, range, length-set, get_or-set_self,
  get_or-set_ne, length-map, get_or-map, length-range, get_or-range, set-get_or, dec_lt, ℕ_discrete,
  if◌then◌else◌,
}
use puring.IndexStack.{
  free_count, IsTop, IsFree, IsDistinct, pop-IsDistinct, pop-not-IsFree, push-IsDistinct,
}
use puring.BufferIndex.{
  FixedBufferIdxRegistry, buffer_idx_registry_create, get_buffer_idx, release_buffer_idx,
}

-- The index is free.
abbrev pub Free : FixedBufferIdxRegistry → ℤ → Type 0
Free reg index = IsFree (pos 0) reg.available_indices (free_count reg.top) index

pub record IsValid (reg : FixedBufferIdxRegistry) : Type 0 where
  pub small : reg.size < 2 ^ 31
  pub room : length reg.available_indices ≡ reg.size
  pub low : IsTop reg.top
  pub high : free_count reg.top ≤ reg.size
  pub distinct : IsDistinct (pos 0) reg.available_indices (free_count reg.top)
  pub bounded :
      (j : ℕ)
      → j < free_count reg.top
      → (i : ℕ) × (i < reg.size) × (get_or reg.available_indices j (pos 0) ≡ pos i)

-- An exhausted registry answers -1 and stays as it is.
pub get_buffer_idx-exhausted :
    (reg : FixedBufferIdxRegistry) → free_count reg.top ≡ 0 → get_buffer_idx reg ≡ (negsuc 0, reg)
unfolding get_buffer_idx
get_buffer_idx-exhausted reg h = ground arith

-- Otherwise `get_buffer_idx` takes the top of the stack.
get_buffer_idx-eq :
    (reg : FixedBufferIdxRegistry) (n : ℕ)
    → reg.top ≡ pos n
    → get_buffer_idx reg
      ≡ (get_or reg.available_indices n (pos 0), record reg { top = dec (pos n) })
unfolding get_buffer_idx
get_buffer_idx-eq reg n e = rw e

free_count-dec : (n : ℕ) → free_count (dec (pos n)) ≡ n
free_count-dec zero = refl
free_count-dec (suc n) = refl

IsTop-dec : (n : ℕ) → IsTop (dec (pos n))
IsTop-dec zero = refl
IsTop-dec (suc n) = refl

pop-IsValid :
    (reg : FixedBufferIdxRegistry) (n : ℕ)
    → reg.top ≡ pos n
    → IsValid reg
    → IsValid (record reg { top = dec (pos n) })
pop-IsValid reg n e v = record {
  small = v.small;
  room = v.room;
  low = IsTop-dec n;
  high = rw (free_count-dec n) (omega (arith, v.high, ap free_count e));
  distinct =
      rw (free_count-dec n) (pop-IsDistinct (pos 0) reg.available_indices n (rw e at v.distinct));
  bounded = λ j h. v.bounded j (rw e (omega (arith, (rw (free_count-dec n) at h))));
}

-- What taking an index gives.
pub record Takes (reg : FixedBufferIdxRegistry) (x : ℤ) (reg' : FixedBufferIdxRegistry)
    : Type 0 where
  pub index : ℕ
  pub is_index : x ≡ pos index
  pub in_range : index < reg.size
  pub was_free : Free reg x
  pub now_taken : ¬ Free reg' x
  pub valid : IsValid reg'
  pub one_less : suc (free_count reg'.top) ≡ free_count reg.top

-- A valid registry with a free index gives one away: an index in range that was free and is not
-- free afterwards. The registry stays valid, with one index less.
pub get_buffer_idx-Takes :
    (reg : FixedBufferIdxRegistry) (n : ℕ)
    → reg.top ≡ pos n
    → IsValid reg
    → Takes reg (get_buffer_idx reg).0 (get_buffer_idx reg).1
get_buffer_idx-Takes reg n e v = rw (get_buffer_idx-eq reg n e) (
    let found = v.bounded n (rw e (omega arith)) in
    record {
      index = found.0;
      is_index = found.2;
      in_range = found.1;
      was_free = rw e (n, omega arith, refl);
      now_taken =
          rw (free_count-dec n)
            (pop-not-IsFree (pos 0) reg.available_indices n (rw e at v.distinct));
      valid = pop-IsValid reg n e v;
      one_less = rw (free_count-dec n, e);
    })

inc-IsTop : (top : ℤ) → IsTop top → inc top ≡ pos (free_count top)
inc-IsTop (pos n) h = refl
inc-IsTop (negsuc zero) h = refl
inc-IsTop (negsuc (suc n)) h = cc

module _ (reg : FixedBufferIdxRegistry) (x : ℤ) (v : IsValid reg) where
  -- A full registry refuses an index.
  pub release_buffer_idx-full :
      free_count reg.top ≡ reg.size → release_buffer_idx reg x ≡ (negsuc 0, reg)
  unfolding release_buffer_idx
  release_buffer_idx-full full =
      rw (inc-IsTop reg.top v.low, to_signed_of_lt reg.size v.small) (ground arith)

module _ (reg : FixedBufferIdxRegistry) (x : ℤ) (small : reg.size < 2 ^ 31)
    (low : IsTop reg.top) where
  release_buffer_idx-eq :
      free_count reg.top < reg.size
      → release_buffer_idx reg x ≡ (
        pos 0,
        record reg {
          available_indices = set reg.available_indices (free_count reg.top) x;
          top = pos (free_count reg.top);
        },
      )
  unfolding release_buffer_idx
  release_buffer_idx-eq h =
      rw (inc-IsTop reg.top low, to_signed_of_lt reg.size small) (ground arith)

pos-injective : (m n : ℕ) → pos m ≡ pos n → m ≡ n
pos-injective m n h = cc

module _ (reg : FixedBufferIdxRegistry) (i : ℕ) (v : IsValid reg) where
  push-IsValid :
      i < reg.size
      → free_count reg.top < reg.size
      → ¬ Free reg (pos i)
      → IsValid (record reg {
        available_indices = set reg.available_indices (free_count reg.top) (pos i);
        top = pos (free_count reg.top);
      })
  push-IsValid hi h taken = record {
    small = v.small;
    room = length-set reg.available_indices (free_count reg.top) (pos i) ∙ v.room;
    low = refl;
    high = h;
    distinct =
        push-IsDistinct (pos 0) reg.available_indices (free_count reg.top) (pos i) (rw v.room h)
          v.distinct taken;
    bounded = λ j hj. elim (ℕ_discrete j (free_count reg.top)) [
      | yes top ↦
          (i, hi, rw top (get_or-set_self reg.available_indices _ (pos i) (pos 0) (rw v.room h)))
      | no low ↦
          let (m, hm, e) = v.bounded j (omega arith) in
          (m, hm, get_or-set_ne reg.available_indices _ j (pos i) (pos 0) (omega arith) ∙ e)
    ];
  }

  -- On a valid registry, releasing an index that is in range and taken keeps the registry valid.
  pub release_buffer_idx-IsValid :
      i < reg.size → ¬ Free reg (pos i) → IsValid (release_buffer_idx reg (pos i)).1
  release_buffer_idx-IsValid hi taken = elim (dec_lt (free_count reg.top) reg.size) [
    | yes h ↦ rw (release_buffer_idx-eq reg (pos i) v.small v.low h) (push-IsValid hi h taken)
    | no h ↦ rw (release_buffer_idx-full reg (pos i) v (omega (arith, v.high))) v
  ]

put_back :
    (reg : FixedBufferIdxRegistry) (n : ℕ)
    → reg.top ≡ pos n
    → record reg {
      available_indices = set reg.available_indices n (get_or reg.available_indices n (pos 0));
      top = pos n;
    }
      ≡ reg
put_back reg n e = λ i. record reg {
  available_indices = set-get_or reg.available_indices n (pos 0) i;
  top = sym e i;
}

-- On a valid registry that is not exhausted, releasing the index just taken restores the registry.
release-get_buffer_idx :
    (reg : FixedBufferIdxRegistry) (n : ℕ)
    → reg.top ≡ pos n
    → IsValid reg
    → release_buffer_idx (get_buffer_idx reg).1 (get_buffer_idx reg).0 ≡ (pos 0, reg)
release-get_buffer_idx reg n e v = rw (get_buffer_idx-eq reg n e) (
    release_buffer_idx-eq _ _ v.small (IsTop-dec n)
      (rw (free_count-dec n) (omega (arith, v.high, ap free_count e)))
    ∙ rw (free_count-dec n) (ap (λ r. (pos 0, r)) (put_back reg n e)))

-- A release is not checked: on a valid registry with room for two more, one index released twice is
-- answered by the next two calls of `get_buffer_idx`.
pub release_buffer_idx-twice :
    (reg : FixedBufferIdxRegistry) (x : ℤ)
    → IsValid reg
    → suc (free_count reg.top) < reg.size
    → let once = release_buffer_idx reg x in
      let twice = release_buffer_idx once.1 x in
      let first = get_buffer_idx twice.1 in
      (once.0 ≡ pos 0) × (twice.0 ≡ pos 0) × (first.0 ≡ x) × ((get_buffer_idx first.1).0 ≡ x)
release_buffer_idx-twice reg x v h =
    let c = free_count reg.top in
    let a₁ = set reg.available_indices c x in
    let a₂ = set a₁ (suc c) x in
    let twice : FixedBufferIdxRegistry = record reg { available_indices = a₂; top = pos (suc c) } in
    let room₁ : suc c < length a₁ = rw (length-set reg.available_indices c x, v.room) h in
    rw (release_buffer_idx-eq reg x v.small v.low (omega arith)) (
      rw
        (release_buffer_idx-eq (record reg { available_indices = a₁; top = pos c }) x v.small refl
          h)
        (rw (get_buffer_idx-eq twice (suc c) refl) (
          rw (get_buffer_idx-eq (record twice { top = pos c }) c refl) (
            refl,
            refl,
            get_or-set_self a₁ (suc c) x (pos 0) room₁,
            get_or-set_ne a₁ (suc c) c x (pos 0) (omega arith)
                ∙ get_or-set_self reg.available_indices c x (pos 0) (rw v.room (omega arith)),
          ))))

-- The registry of `n` free indices.
abbrev pub all_free : ℕ → FixedBufferIdxRegistry
all_free n = record { available_indices = map pos (range 0 n); top = dec (pos n); size = n }

all_free-entry : (n j : ℕ) → j < n → get_or (map pos (range 0 n)) j (pos 0) ≡ pos j
all_free-entry n j h =
    get_or-map pos (range 0 n) j 0 ∙ ap pos (omega (arith, get_or-range 0 n j 0 h))

all_free-IsValid : (n : ℕ) → n < 2 ^ 31 → IsValid (all_free n)
all_free-IsValid n h = record {
  small = h;
  room = length-map pos (range 0 n) ∙ length-range 0 n;
  low = rw (free_count-dec n);
  high = rw (free_count-dec n) (omega arith);
  distinct =
      rw (free_count-dec n) (λ i j hi hj e.
        pos-injective i j (sym (all_free-entry n i hi) ∙ e ∙ all_free-entry n j hj));
  bounded = rw (free_count-dec n) (λ j hj. (j, hj, all_free-entry n j hj));
}

-- Where its allocations succeed and the size is an `int`, a new registry is valid and has all its
-- indices free; 0 asks for 128 of them.
pub buffer_idx_registry_create-IsValid :
    (size : ℕ)
    → size < 2 ^ 31
    → let n = if size == 0 then 128 else size in
      (buffer_idx_registry_create true true size ≡ some (all_free n))
      × IsValid (all_free n)
      × (free_count (all_free n).top ≡ n)
unfolding buffer_idx_registry_create
buffer_idx_registry_create-IsValid size h =
    let n = if size == 0 then 128 else size in
    let small : n < 2 ^ 31 = ground arith in
    (rw (to_signed_of_lt n small), all_free-IsValid n small, free_count-dec n)
