-- ===== src/Modes.antt =====
-- src/buffer_controllers/buffer_modes.c: how the kernel is given buffers, and how they are taken back.
pub mod BufRing
use puring.Base.{
  ℕ, zero, suc, ◌+◌, ◌*◌, ◌-◌, ltb, to_signed, to_unsigned, ℤ, pos, negsuc, is_neg, to_nat, Option,
  none, some, List, [], ◌∷◌, if◌then◌else◌,
}
use puring.Uring.{
  Liburing, Prep, prepped, buffers_registered, buffers_unregistered, Code, ◌>>=◌, ◌>>◌, pure, call,
  submit,
}
use puring.Timer.{sqe_with_optional_timeout}
use puring.Ops.Words.{u16, u32}

-- One call of `io_uring_buf_ring_add`, but for the ring and its mask.
pub record Added : Type 0 where
  pub addr : ℤ
  pub len : ℕ
  pub bid : ℕ
  pub offset : ℕ

-- `addr - n`
abbrev back : ℕ → ℕ → ℤ
back addr n = if ltb addr n then negsuc (n - addr - 1) else pos (addr - n)

-- `i * len`
abbrev times : ℕ → ℤ → ℤ
times i (pos len) = pos (i * len)
times zero (negsuc len) = pos 0
times (suc i) (negsuc len) = negsuc (suc i * suc len - 1)

-- The product as an `int`, of 32 bits; an overflow wraps around.
abbrev pub int_product : ℕ → ℤ → ℤ
int_product i len = to_signed 31 (to_unsigned 32 (times i len))

abbrev forward : ℕ → ℤ → ℤ
forward addr (pos n) = pos (addr + n)
forward addr (negsuc n) = back addr (suc n)

-- `(char *)addr + i * len`
abbrev pub place : ℕ → ℤ → ℕ → ℤ
place addr len i = forward addr (int_product i len)

-- The `for` of `init_buf_ring_mode`, with `n` buffers left from the `i`-th on.
unfoldable pub ring_adds : ℕ → ℤ → ℕ → ℕ → List Added
ring_adds addr len i zero = []
ring_adds addr len i (suc n) =
    record { addr = place addr len i; len = u32 len; bid = u16 (pos i); offset = i }
    ∷ ring_adds addr len (suc i) n

-- `init_buf_ring_mode`, with the answer of `io_uring_setup_buf_ring`: the ring, and what is added.
unfoldable pub init_buf_ring_mode : Option ℕ → ℕ → ℤ → ℤ → Option ℕ × List Added
unfolding ring_adds
init_buf_ring_mode none addr len nentries = (none, [])
init_buf_ring_mode (some ring) addr len nentries =
    (some ring, ring_adds addr len 0 (to_nat nentries))

-- `close_buf_ring_mode`: its result, and the rings freed.
unfoldable pub close_buf_ring_mode : Option ℕ → ℤ × List ℕ
close_buf_ring_mode none = (negsuc 0, [])
close_buf_ring_mode (some ring) = (pos 1, ring ∷ [])

module _ (k : Liburing) where
  unfoldable pub init_fixed_mode : ℕ → ℕ → Code ℤ
  init_fixed_mode iovecs nr_iovecs t = (
    if is_neg (k.register_result t) then negsuc 0 else pos 1,
    buffers_registered iovecs nr_iovecs (k.register_result t) ∷ t,
  )

  unfoldable pub close_fixed_mode : Code ℤ
  close_fixed_mode t = (
    if is_neg (k.unregister_result t) then negsuc 0 else pos 1,
    buffers_unregistered (k.unregister_result t) ∷ t,
  )

  -- The end of the two functions on provided buffers: they give their entry no tag.
  unfoldable pub submit_untagged : Code ℤ
  unfolding submit
  submit_untagged = do result ← submit k; pure (if is_neg result then negsuc 0 else pos 1)

  unfoldable pub init_provided_mode : ℕ → ℤ → ℤ → ℤ → Code ℤ
  unfolding sqe_with_optional_timeout submit_untagged
  init_provided_mode addr len nr bgid =
      sqe_with_optional_timeout k none λ sqe. do
        call (prepped sqe (Prep.provide_buffers addr len nr bgid (pos 0)))
        submit_untagged

  unfoldable pub close_provided_mode : ℤ → ℤ → Code ℤ
  unfolding sqe_with_optional_timeout submit_untagged
  close_provided_mode nr bgid =
      sqe_with_optional_timeout k none
        λ sqe. do call (prepped sqe (Prep.remove_buffers nr bgid)); submit_untagged
