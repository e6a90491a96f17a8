-- ===== src/IndexStack.antt =====
-- An array whose first `n` entries are a stack of free indices, as both index registries keep it.
use puring.Base.{
  ℕ, suc, ◌<◌, ◌≡◌, sym, ◌∙◌, ◌≢◌, ◌⊎◌, inl, inr, List, ℤ, pos, negsuc, dec, arith, length, get_or,
  set, get_or-set_self, get_or-set_ne, ℕ_discrete,
}

-- How many entries a `top` leaves on the stack.
abbrev pub free_count : ℤ → ℕ
free_count (pos n) = suc n
free_count (negsuc n) = 0

-- The least `top` is -1.
abbrev pub IsTop : ℤ → Type 0
IsTop top = top ≡ dec (pos (free_count top))

module _ {A : Type 0} (d : A) where
  -- `a` is on the stack.
  abbrev pub IsFree : List A → ℕ → A → Type 0
  IsFree xs n a = (j : ℕ) × (j < n) × (get_or xs j d ≡ a)

  abbrev pub IsDistinct : List A → ℕ → Type 0
  IsDistinct xs n = (i j : ℕ) → i < n → j < n → get_or xs i d ≡ get_or xs j d → i ≡ j

  pub pop-IsDistinct : (xs : List A) (n : ℕ) → IsDistinct xs (suc n) → IsDistinct xs n
  pop-IsDistinct xs n h i j p q e = h i j (omega arith) (omega arith) e

  pub pop-not-IsFree : (xs : List A) (n : ℕ) → IsDistinct xs (suc n) → ¬ IsFree xs n (get_or xs n d)
  pop-not-IsFree xs n h (j, p, e) = let same = h j n (omega arith) (omega arith) e in omega arith

  -- What was free is still free, but for the one that was taken.
  pub IsFree-pop :
      (xs : List A) (n : ℕ) (a : A) → IsFree xs (suc n) a → IsFree xs n a ⊎ (get_or xs n d ≡ a)
  IsFree-pop xs n a (j, p, e) = elim (ℕ_discrete j n) [
    | yes same ↦ inr (rw same at e)
    | no ne ↦ inl (j, omega arith, e)
  ]

  pub push-IsDistinct :
      (xs : List A) (n : ℕ) (a : A)
      → n < length xs
      → IsDistinct xs n
      → ¬ IsFree xs n a
      → IsDistinct (set xs n a) (suc n)
  push-IsDistinct xs n a room h new i j p q e = elim (ℕ_discrete i n) [
    | yes i_top ↦ elim (ℕ_discrete j n) [
      | yes j_top ↦ omega arith
      | no j_low ↦ absurd (new (j, omega arith, sym (kept j j_low) ∙ sym e ∙ (rw i_top written)))
    ]
    | no i_low ↦ elim (ℕ_discrete j n) [
      | yes j_top ↦ absurd (new (i, omega arith, sym (kept i i_low) ∙ e ∙ (rw j_top written)))
      | no j_low ↦ h i j (omega arith) (omega arith) (sym (kept i i_low) ∙ e ∙ kept j j_low)
    ]
  ]
    where
      written : get_or (set xs n a) n d ≡ a
      written = get_or-set_self xs n a d room

      kept : (m : ℕ) → m ≢ n → get_or (set xs n a) m d ≡ get_or xs m d
      kept m ne = get_or-set_ne xs n m a d (omega arith)

  pub IsFree-push :
      (xs : List A) (n : ℕ) (a b : A)
      → n < length xs
      → IsFree xs n b ⊎ (a ≡ b)
      → IsFree (set xs n a) (suc n) b
  IsFree-push xs n a b room (inl (j, p, e)) =
      (j, omega arith, get_or-set_ne xs n j a d (omega arith) ∙ e)
  IsFree-push xs n a b room (inr e) = (n, omega arith, get_or-set_self xs n a d room ∙ e)

  pub push-IsFree :
      (xs : List A) (n : ℕ) (a b : A)
      → n < length xs
      → IsFree (set xs n a) (suc n) b
      → IsFree xs n b ⊎ (a ≡ b)
  push-IsFree xs n a b room (j, p, e) = elim (ℕ_discrete j n) [
    | yes same ↦ inr (sym (get_or-set_self xs n a d room) ∙ (rw same at e))
    | no ne ↦ inl (j, omega arith, sym (get_or-set_ne xs n j a d (omega arith)) ∙ e)
  ]
