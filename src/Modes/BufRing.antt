-- ===== src/Modes/BufRing.antt =====
-- The buffers that a ring of buffers is given.
use puring.Base.{
  ℕ, zero, suc, ◌+◌, ◌-◌, ◌*◌, ◌^◌, ◌<◌, ◌≤◌, ◌≡◌, ◌≢◌, refl, sym, ap, ◌∙◌, ℤ, pos,
  to_unsigned_16_of_lt, to_unsigned_32_of_lt, to_signed_of_lt, some, List, length, get_or, arith,
}
use puring.Ops.Words.{u16, u32}
use puring.Modes.{Added, place, ring_adds, init_buf_ring_mode}

-- A read past the end.
abbrev nothing : Added
nothing = record { addr = pos 0; len = 0; bid = 0; offset = 0 }

-- The buffer that is added `i`-th.
abbrev pub nth_added : List Added → ℕ → Added
nth_added added i = get_or added i nothing

ring_adds-length : (addr : ℕ) (len : ℤ) (i n : ℕ) → length (ring_adds addr len i n) ≡ n
unfolding ring_adds
ring_adds-length addr len i zero = refl
ring_adds-length addr len i (suc n) = ap suc (ring_adds-length addr len (suc i) n)

ring_adds-nth :
    (addr : ℕ) (len : ℤ) (i n j : ℕ)
    → j < n
    → nth_added (ring_adds addr len i n) j ≡ record {
      addr = place addr len (i + j);
      len = u32 len;
      bid = u16 (pos (i + j));
      offset = i + j;
    }
unfolding ring_adds
ring_adds-nth addr len i zero j h = absurd (omega arith)
ring_adds-nth addr len i (suc n) zero h = (let same : i + 0 ≡ i = omega arith in rw same refl)
ring_adds-nth addr len i (suc n) (suc j) h =
    (let same : i + suc j ≡ suc i + j = omega arith in
      rw same (ring_adds-nth addr len (suc i) n j (omega arith)))

-- The buffer `i` of `len` bytes each, from `addr` on.
abbrev buffer_at : ℕ → ℤ → ℕ → Added
buffer_at addr len i = record {
  addr = place addr len i;
  len = u32 len;
  bid = u16 (pos i);
  offset = i;
}

ring_adds-at :
    (addr : ℕ) (len : ℤ) (n j : ℕ)
    → j < n
    → nth_added (ring_adds addr len 0 n) j ≡ buffer_at addr len j
ring_adds-at addr len n j h =
    let same : 0 + j ≡ j = omega arith in
    ring_adds-nth addr len 0 n j h ∙ ap (buffer_at addr len) same

-- The buffer `i` lies below the buffer `i + 1 + d`.
step_le : (l i d : ℕ) → i * l + l ≤ (suc i + d) * l
step_le l i d = grind arith

-- Where the product fits in an `int`, the buffer is where it is meant to be.
place-small : (addr l i : ℕ) → i * l < 2 ^ 31 → place addr (pos l) i ≡ pos (addr + i * l)
place-small addr l i h =
    rw (to_unsigned_32_of_lt (i * l) (omega arith), to_signed_of_lt (i * l) h) refl

module _ (ring addr l n : ℕ) (total : n * l < 2 ^ 31) (few : n ≤ 2 ^ 16) where
  abbrev added : List Added
  added = (init_buf_ring_mode (some ring) addr (pos l) (pos n)).1

  -- `init_buf_ring_mode` of a ring that can be set up, with at most 65536 buffers, whose sizes together
  -- fit in an `int`, adds each of them once: the ids of any two are different, and the memory of the
  -- first ends before that of the second begins, which ends within the memory for all.
  pub init_buf_ring_mode-disjoint :
      (i j : ℕ)
      → i < j
      → j < n
      → (length added ≡ n)
        × ((nth_added added i).bid ≢ (nth_added added j).bid)
        × ((a b : ℕ) × ((nth_added added i).addr ≡ pos a)
            × ((nth_added added j).addr ≡ pos b)
            × (a + (nth_added added i).len ≤ b)
            × (b + (nth_added added j).len ≤ addr + n * l))
  unfolding init_buf_ring_mode
  init_buf_ring_mode-disjoint i j hij hj =
      let below = step_le l i (j - suc i) in
      let within = step_le l j (n - suc j) in
      let before : suc i + (j - suc i) ≡ j = omega arith in
      let all : suc j + (n - suc j) ≡ n = omega arith in
      let small : i * l < 2 ^ 31 = omega (arith, total, rw before at below, rw all at within) in
      let fits : j * l < 2 ^ 31 = omega (arith, total, rw all at within) in
      let wide = to_unsigned_32_of_lt l (omega (arith, total, rw all at within)) in
      let first = ring_adds-at addr (pos l) n i (omega arith) in
      let second = ring_adds-at addr (pos l) n j hj in
      (
        ring_adds-length addr (pos l) 0 n,
        (λ e. ne-of_lt hij (
            sym (ap (λ a. a.bid) first ∙ to_unsigned_16_of_lt i (omega arith))
            ∙ e
            ∙ ap (λ a. a.bid) second
            ∙ to_unsigned_16_of_lt j (omega arith))),
        (
          addr + i * l,
          addr + j * l,
          ap (λ a. a.addr) first ∙ place-small addr l i small,
          ap (λ a. a.addr) second ∙ place-small addr l j fits,
          rw (ap (λ a. a.len) first, wide) (omega (arith, rw before at below)),
          rw (ap (λ a. a.len) second, wide) (omega (arith, rw all at within)),
        ),
      )
    where
      ne-of_lt : {a b : ℕ} → a < b → a ≢ b
      ne-of_lt h e = omega arith
