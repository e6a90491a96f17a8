-- ===== src/References.antt =====
-- The references to Python objects that a function holds, as the changes that it makes to their counts.
use puring.Base.{ℕ, ◌+◌, ◌==◌, ◌≡◌, List, [], ◌∷◌, ◌++◌, arith, if◌then◌else◌}

-- What happens to the references that the function holds: it gets one, new or by `Py_INCREF`, or it
-- loses one, by `Py_DECREF` or to a call that takes it over.
pub data Change : Type 0 where
  took gave : ℕ → Change

-- How often the function gets, and loses, a reference of an object.
abbrev pub one : ℕ → ℕ → ℕ
one p o = if p == o then 1 else 0

unfoldable pub refs_got : ℕ → List Change → ℕ
refs_got o [] = 0
refs_got o (took p ∷ changes) = one p o + refs_got o changes
refs_got o (gave p ∷ changes) = refs_got o changes

unfoldable pub refs_lost : ℕ → List Change → ℕ
refs_lost o [] = 0
refs_lost o (took p ∷ changes) = refs_lost o changes
refs_lost o (gave p ∷ changes) = one p o + refs_lost o changes

-- One change after another.
pub refs_got-append :
    (o : ℕ) (before changes : List Change)
    → refs_got o (before ++ changes) ≡ refs_got o before + refs_got o changes
unfolding refs_got
refs_got-append o [] changes = omega arith
refs_got-append o (took p ∷ before) changes =
    let rest = refs_got-append o before changes in omega arith
refs_got-append o (gave p ∷ before) changes = refs_got-append o before changes

pub refs_lost-append :
    (o : ℕ) (before changes : List Change)
    → refs_lost o (before ++ changes) ≡ refs_lost o before + refs_lost o changes
unfolding refs_lost
refs_lost-append o [] changes = omega arith
refs_lost-append o (took p ∷ before) changes = refs_lost-append o before changes
refs_lost-append o (gave p ∷ before) changes =
    let rest = refs_lost-append o before changes in omega arith
