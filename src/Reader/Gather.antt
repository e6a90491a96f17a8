-- ===== src/Reader/Gather.antt =====
-- The loop that copies a result from several buffers.
use puring.Base.{
  ℕ, zero, suc, ◌-◌, ◌≤◌, ◌==◌, ◌≡◌, refl, sym, ap, ◌∙◌, ltb, true, false, List, [], ◌∷◌, ◌++◌,
  take, inl, inr, Bool-cases, arith,
}
use puring.Buffers.{Iovec}
use puring.Reader.{gather}

-- The bytes at an address, and those of several pieces, of a memory.
abbrev pub bytes_at : (ℕ → ℕ) → ℕ → ℕ → List ℕ
bytes_at memory a zero = []
bytes_at memory a (suc n) = memory a ∷ bytes_at memory (suc a) n

abbrev pub pieces_at : (ℕ → ℕ) → List (ℕ × ℕ) → List ℕ
pieces_at memory [] = []
pieces_at memory ((a, n) ∷ pieces) = bytes_at memory a n ++ pieces_at memory pieces

abbrev pub contents : (ℕ → ℕ) → List Iovec → List ℕ
contents memory [] = []
contents memory (v ∷ vs) = bytes_at memory v.iov_base v.iov_len ++ contents memory vs

take-bytes_short :
    (memory : ℕ → ℕ) (a n r : ℕ) (rest : List ℕ)
    → r ≤ n
    → take r (bytes_at memory a n ++ rest) ≡ bytes_at memory a r
take-bytes_short memory a n zero rest h = take_zero (bytes_at memory a n ++ rest)
  where
    take_zero : (xs : List ℕ) → take 0 xs ≡ []
    take_zero [] = refl
    take_zero (x ∷ xs) = refl
take-bytes_short memory a zero (suc r) rest h = absurd (omega arith)
take-bytes_short memory a (suc n) (suc r) rest h =
    ap (◌∷◌ (memory a)) (take-bytes_short memory (suc a) n r rest (omega arith))

take-bytes_long :
    (memory : ℕ → ℕ) (a n r : ℕ) (rest : List ℕ)
    → n ≤ r
    → take r (bytes_at memory a n ++ rest) ≡ bytes_at memory a n ++ take (r - n) rest
take-bytes_long memory a zero r rest h = ap (λ x. take x rest) (omega arith)
take-bytes_long memory a (suc n) zero rest h = absurd (omega arith)
take-bytes_long memory a (suc n) (suc r) rest h = ap (◌∷◌ (memory a)) (
    take-bytes_long memory (suc a) n r rest (omega arith)
    ∙ ap (λ x. bytes_at memory (suc a) n ++ take x rest) (omega arith))

gather-none : (vs : List Iovec) → gather vs 0 ≡ []
unfolding gather
gather-none [] = refl
gather-none (v ∷ vs) = refl

gather-nil : (r : ℕ) → gather [] r ≡ []
unfolding gather
gather-nil r = refl

bytes-append-nil : (xs : List ℕ) → xs ++ [] ≡ xs
bytes-append-nil [] = refl
bytes-append-nil (x ∷ xs) = ap (◌∷◌ x) (bytes-append-nil xs)

take-nil : (r : ℕ) → take {A = ℕ} r [] ≡ []
take-nil zero = refl
take-nil (suc r) = refl

nonzero : (r : ℕ) → (suc r == 0) ≡ false
nonzero r = ground arith

module _ (v : Iovec) (vs : List Iovec) (r : ℕ) where
  gather-short :
      ltb (suc r) v.iov_len ≡ true
      → gather (v ∷ vs) (suc r) ≡ (v.iov_base, suc r) ∷ gather vs (suc r - suc r)
  unfolding gather
  gather-short h = rw (h, nonzero r) refl

  gather-long :
      ltb (suc r) v.iov_len ≡ false
      → gather (v ∷ vs) (suc r) ≡ (v.iov_base, v.iov_len) ∷ gather vs (suc r - v.iov_len)
  unfolding gather
  gather-long h = rw (h, nonzero r) refl

-- The loop over the vectors copies, in order, the first bytes of all the buffers together, as many
-- as the kernel has counted and the buffers hold.
pub gather-take :
    (memory : ℕ → ℕ) (vs : List Iovec) (remaining : ℕ)
    → pieces_at memory (gather vs remaining) ≡ take remaining (contents memory vs)
gather-take memory [] r = ap (pieces_at memory) (gather-nil r) ∙ sym (take-nil r)
gather-take memory (v ∷ vs) zero = ap (pieces_at memory) (gather-none (v ∷ vs))
gather-take memory (v ∷ vs) (suc r) = elim (Bool-cases (ltb (suc r) v.iov_len)) [
  | inl short ↦
      ap (pieces_at memory) (gather-short v vs r short)
      ∙ (ap (λ x. bytes_at memory v.iov_base (suc r) ++ pieces_at memory (gather vs x))
            (omega arith)
          ∙ ap (λ x. bytes_at memory v.iov_base (suc r) ++ pieces_at memory x) (gather-none vs)
          ∙ bytes-append-nil (bytes_at memory v.iov_base (suc r))
          ∙ sym (
              take-bytes_short memory v.iov_base v.iov_len (suc r) (contents memory vs)
                (below (suc r) v.iov_len short)))
  | inr long ↦
      ap (pieces_at memory) (gather-long v vs r long)
      ∙ (ap (λ x. bytes_at memory v.iov_base v.iov_len ++ x)
            (gather-take memory vs (suc r - v.iov_len))
          ∙ sym (
              take-bytes_long memory v.iov_base v.iov_len (suc r) (contents memory vs)
                (above (suc r) v.iov_len long)))
]
  where
    below : (m n : ℕ) → ltb m n ≡ true → m ≤ n
    below m n h = ground arith

    above : (m n : ℕ) → ltb m n ≡ false → n ≤ m
    above m n h = ground arith
