-- ===== src/Registry/Count.antt =====
-- How many slots hold a request.
use puring.Base.{
  ℕ, zero, suc, ◌+◌, ◌<◌, ◌≤◌, ◌≡◌, refl, Option, none, some, List, [], ◌∷◌, arith, length, get_or,
  set, replicate,
}
use puring.Registry.{RequestSlot, zero_slot}

-- 1 for a future, 0 for NULL.
abbrev pub weight : Option ℕ → ℕ
weight none = 0
weight (some f) = 1

abbrev pub occupied : List RequestSlot → ℕ
occupied [] = 0
occupied (x ∷ xs) = weight x.future + occupied xs

pub occupied-set :
    (xs : List RequestSlot) (i : ℕ) (v : RequestSlot)
    → i < length xs
    → occupied (set xs i v) + weight (get_or xs i zero_slot).future ≡ occupied xs + weight v.future
occupied-set [] i v h = absurd (omega arith)
occupied-set (x ∷ xs) zero v h = omega arith
occupied-set (x ∷ xs) (suc i) v h = omega (arith, occupied-set xs i v (omega arith))

pub weight-le-occupied :
    (xs : List RequestSlot) (i : ℕ) → weight (get_or xs i zero_slot).future ≤ occupied xs
weight-le-occupied [] i = omega arith
weight-le-occupied (x ∷ xs) zero = omega arith
weight-le-occupied (x ∷ xs) (suc i) = omega (arith, weight-le-occupied xs i)

pub occupied-replicate : (n : ℕ) → occupied (replicate n zero_slot) ≡ 0
occupied-replicate zero = refl
occupied-replicate (suc n) = omega (arith, occupied-replicate n)
