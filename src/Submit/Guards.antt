-- ===== src/Submit/Guards.antt =====
-- src/python_api/python_macroses.h and the first lines of the methods: the guards on the loop and on
-- the object, and the future and the payload that a method cannot do without.
use puring.Base.{
  ℕ, ◌≡◌, refl, inl, inr, Option, none, some, Bool, true, false, Bool-cases, not, if◌then◌else◌,
}
use puring.Store.{Store}
use puring.Submit.{
  Failure, World, Run, refused, wrong_thread, loop_closing, bad_arguments, no_future, no_payload,
}

-- What the interpreter tells a method: the guards on the loop, whether the arguments can be parsed,
-- the future, and the payload of its buffers (NULL where one cannot be made).
pub record Situation : Type 0 where
  pub on_loop_thread : Bool
  pub is_closing : Bool
  pub parsed : Bool
  pub future : Option ℕ
  pub payload : Option ℕ

-- `ASSERT_LOOP_THREAD` and `ASSERT_RING_LOOP_IS_CLOSING`, before `next`.
unfoldable pub on_loop : Situation → World → Run → Run
on_loop c w next =
    if not c.on_loop_thread
    then some (refused wrong_thread, w)
    else if c.is_closing
    then some (refused loop_closing, w)
    else next

-- The guards of a method, on an object that is closed or not.
unfoldable pub guarded : Situation → Failure → Bool → World → Run → Run
unfolding on_loop
guarded c when_closed closed w next = on_loop c w (
    if closed
    then some (refused when_closed, w)
    else if not c.parsed
    then some (refused bad_arguments, w)
    else next)

-- `create_future`, with what is released where there is none.
unfoldable pub with_future : Option ℕ → (Store → Store) → World → (ℕ → Run) → Run
with_future none release w next = some (refused no_future, record w { store = release w.store })
with_future (some future) release w next = next future

-- The making of a payload, likewise.
unfoldable pub with_payload : Option ℕ → (Store → Store) → World → (ℕ → Run) → Run
with_payload none release w next = some (refused no_payload, record w { store = release w.store })
with_payload (some payload) release w next = next payload

-- Nothing stands in the way of a request.
abbrev pub IsReady : Situation → Bool → ℕ → Type 0
IsReady c closed future =
    (c.on_loop_thread ≡ true)
    × (c.is_closing ≡ false)
    × (closed ≡ false)
    × (c.parsed ≡ true)
    × (c.future ≡ some future)

module _ (P : Run → Type 0) (c : Situation) (w : World) where
  pub on_loop-cases :
      (next : Run)
      → ((x : Failure) → P (some (refused x, w)))
      → ((c.on_loop_thread ≡ true) × (c.is_closing ≡ false) → P next)
      → P (on_loop c w next)
  unfolding on_loop
  on_loop-cases next away go = elim (Bool-cases c.on_loop_thread) [
    | inr off ↦ rw off (away wrong_thread)
    | inl on ↦ elim (Bool-cases c.is_closing) [
      | inl closing ↦ rw (on, closing) (away loop_closing)
      | inr running ↦ rw (on, running) (go (on, running))
    ]
  ]

  pub guarded-cases :
      (when_closed : Failure) (closed : Bool) (next : Run)
      → ((x : Failure) → P (some (refused x, w)))
      → ((c.on_loop_thread ≡ true) × (c.is_closing ≡ false) × (closed ≡ false) × (c.parsed ≡ true)
          → P next)
      → P (guarded c when_closed closed w next)
  unfolding guarded
  guarded-cases when_closed closed next away go = on_loop-cases _ away λ (on, running).
      elim (Bool-cases closed) [
        | inl shut ↦ rw shut (away when_closed)
        | inr is_open ↦ elim (Bool-cases c.parsed) [
          | inr bad ↦ rw (is_open, bad) (away bad_arguments)
          | inl good ↦ rw (is_open, good) (go (on, running, is_open, good))
        ]
      ]

  pub with_future-cases :
      (given : Option ℕ) (release : Store → Store) (next : ℕ → Run)
      → P (some (refused no_future, record w { store = release w.store }))
      → ((future : ℕ) → given ≡ some future → P (next future))
      → P (with_future given release w next)
  unfolding with_future
  with_future-cases none release next away go = away
  with_future-cases (some future) release next away go = go future refl

  pub with_payload-cases :
      (given : Option ℕ) (release : Store → Store) (next : ℕ → Run)
      → P (some (refused no_payload, record w { store = release w.store }))
      → ((payload : ℕ) → given ≡ some payload → P (next payload))
      → P (with_payload given release w next)
  unfolding with_payload
  with_payload-cases none release next away go = away
  with_payload-cases (some payload) release next away go = go payload refl
