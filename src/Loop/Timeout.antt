-- ===== src/Loop/Timeout.antt =====
-- How long a turn waits.
use puring.Base.{
  ℕ, ◌≤◌, ◌≡◌, refl, ℤ, pos, Option, some, none, true, false, inl, inr, Bool-cases, List, [], ◌∷◌,
  arith, not, ◌||◌,
}
use puring.Loop.{
  Doubles, PyLoop, day_seconds, clamp, first_timeout, scheduled_timeout, compute_timeout, is_empty,
}

-- What is relied on of doubles: on those that are numbers, comparisons with the two constants, and
-- the conversion of one between them.
pub record Laws (D : Doubles) : Type 1 where
  pub IsNumber : D.Double → Type 0
  pub nought_number : IsNumber D.nought
  pub day_number : IsNumber D.day
  pub nought_not_less : D.less D.nought D.nought ≡ false
  pub nought_day : D.less D.day D.nought ≡ false
  pub day_nought : D.less D.nought D.day ≡ true
  pub day_not_less : D.less D.day D.day ≡ false
  pub asymmetric : (x : D.Double) → D.less D.nought x ≡ true → D.less x D.nought ≡ false
  pub truncates :
      (x : D.Double)
      → IsNumber x
      → D.less x D.nought ≡ false
      → D.less D.day x ≡ false
      → (n : ℕ) × (n ≤ day_seconds) × (D.truncate x ≡ pos n)
  pub cancels :
      (x : D.Double)
      → IsNumber x
      → D.less x D.nought ≡ false
      → D.less D.day x ≡ false
      → D.nsec (D.minus x x) ≡ pos 0

-- At most a day, in whole seconds.
abbrev pub IsWait : ℤ × ℤ → Type 0
IsWait ts = (n : ℕ) × (n ≤ day_seconds) × (ts ≡ (pos n, pos 0))

module _ (D : Doubles) (laws : Laws D) where
  -- A clamped delay is between the two constants.
  Clamped : D.Double → Type 0
  Clamped x = laws.IsNumber x × (D.less x D.nought ≡ false) × (D.less D.day x ≡ false)

  clamp-Clamped : (x : D.Double) → laws.IsNumber x → Clamped (clamp D x)
  unfolding clamp Clamped
  clamp-Clamped x number = elim (Bool-cases (D.less x D.nought)) [
    | inl negative ↦
        rw (negative, laws.nought_day) (laws.nought_number, laws.nought_not_less, laws.nought_day)
    | inr positive ↦ elim (Bool-cases (D.less D.day x)) [
      | inl late ↦
          rw (positive, late)
            (laws.day_number, laws.asymmetric D.day laws.day_nought, laws.day_not_less)
      | inr soon ↦ rw (positive, soon) (number, positive, soon)
    ]
  ]

  first_timeout-IsWait :
      (when time : Option D.Double)
      → ((w t : D.Double) → when ≡ some w → time ≡ some t → laws.IsNumber (D.minus w t))
      → IsWait (first_timeout D when time)
  unfolding first_timeout Clamped
  first_timeout-IsWait none time numbers = (0, omega arith, refl)
  first_timeout-IsWait (some w) none numbers = (0, omega arith, refl)
  first_timeout-IsWait (some w) (some t) numbers =
      let (number, low, high) = clamp-Clamped (D.minus w t) (numbers w t refl refl) in
      let (n, small, seconds) = laws.truncates (clamp D (D.minus w t)) number low high in
      (n, small, rw (seconds, laws.cancels (clamp D (D.minus w t)) number low high) refl)

  -- The wait of a turn is never negative and at most a day, provided that the difference of the
  -- time of a timer and of the clock is a number. It is in whole seconds: the nanoseconds are always
  -- 0.
  pub compute_timeout-IsWait :
      (loop : PyLoop D)
      → ((handle : ℕ) (w t : D.Double)
          → loop.when handle ≡ some w
          → loop.time ≡ some t
          → laws.IsNumber (D.minus w t))
      → IsWait (compute_timeout D loop)
  unfolding compute_timeout
  compute_timeout-IsWait loop numbers = elim (Bool-cases loop.readable) [
    | inr unreadable ↦ (0, omega arith, rw unreadable refl)
    | inl readable ↦ elim (Bool-cases (not (is_empty loop.ready) || loop.stopping)) [
      | inl busy ↦ (0, omega arith, rw (readable, busy) refl)
      | inr idle ↦ rw (readable, idle) (of_timers loop.scheduled)
    ]
  ]
    where
      of_timers : (handles : List ℕ) → IsWait (scheduled_timeout D loop handles)
      of_timers [] = (day_seconds, omega arith, refl)
      of_timers (handle ∷ handles) =
          first_timeout-IsWait (loop.when handle) loop.time (numbers handle)
