-- ===== src/Submit/Objects.antt =====
-- The functions of the module that make an object, from their guards to their answers.
use puring.Base.{ℕ, ◌+◌, ◌≡◌, ℤ, pos, ltb_ℤ, Option, some, Bool, true}
use puring.Uring.{Liburing, Trace}
use puring.Uring.Queue.{NoReuse}
use puring.Timer.{TimeoutParams}
use puring.Store.{Store, decref}
use puring.Registry.{Entry}
use puring.Registry
use puring.Registry.Valid.{IsValid}
use puring.Registry.RoundTrip.{count}
use puring.Ops.Request.{Request, perform}
use puring.Ops.Contract.{Queue}
use puring.Submit.{World, Run, Answer, Failure, refused}
use puring.Submit.Outcome.{Outcome}
use puring.Submit.Guards.{Situation}

-- A new object and its future.
abbrev pub both : ℕ → ℕ → ℕ → ℕ
both object future x = count x (some object) + count x (some future)

-- What becomes of a new object `new`: it has not been made, or it has been released again, or its
-- request, of the slot `e`, is accepted, or refused, and the object is released with its future.
pub data Created (k : Liburing) (c : Situation) (object : Option ℕ) (new : ℕ → World)
    (e : ℕ → ℕ → Entry) (o : Request) (w : World) : Answer → World → Type 0 where
  not_made : (x : Failure) → Created k c object new e o w (refused x) w
  dropped :
      (x : Failure) (p : ℕ)
      → object ≡ some p
      → Created k c object new e o w (refused x) (record (new p) { store = decref p (new p).store })
  asked :
      (p future : ℕ) {w' : World} {a : Answer}
      → (object ≡ some p) × (c.parsed ≡ Bool.true) × (c.future ≡ some future)
      → Outcome k (e p future) (λ i. o) (both p future) (new p) w' a
      → Created k c object new e o w a w'

abbrev pub Creates :
    Liburing → Situation → Option ℕ → (ℕ → World) → (ℕ → ℕ → Entry) → Request → World → Run → Type 0
Creates k c object new e o w run =
    (a : Answer) × (w' : World) × (run ≡ some (a, w')) × Created k c object new e o w a w'

module _ (k : Liburing) (fresh : NoReuse k) (is_uringio : Bool) (c : Situation) (object : Option ℕ)
    (tp : TimeoutParams) (w : World) (v : IsValid w.registry) where
  -- A request of a new object, once the object is there.
  module _ (new : ℕ → World) (e : ℕ → ℕ → Entry) (o : Request) (fails : ℤ → Bool)
      (failure : ℤ → Failure) (valid : (p : ℕ) → IsValid (new p).registry)
      (decides : (i : ℤ) (t : Trace)
        → fails (perform k o i tp t).0 ≡ ltb_ℤ (perform k o i tp t).0 (pos 1)) where
    abbrev P : Run → Type 0
    P = Creates k c object new e o w
