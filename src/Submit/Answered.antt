-- ===== src/Submit/Answered.antt =====
-- What a method answers, from its guards on.
use puring.Base.{ℕ, ◌≡◌, refl, ◌∙◌, ℤ, pos, ltb_ℤ, Option, some, List}
use puring.Buffers.{Freed}
use puring.Uring.{Liburing, Trace, Code}
use puring.Uring.Queue.{NoReuse}
use puring.Timer.{TimeoutParams}
use puring.Store.{Store, decref}
use puring.Registry.{Entry}
use puring.Registry.Valid.{IsValid}
use puring.Registry.RoundTrip.{count, refs-decref?}
use puring.Ops.Request.{Request, perform}
use puring.Submit.{World, Run, Answer, Failure, Tail, refused, submit, checked_tail}
use puring.Submit.Outcome.{registered, Gives, Outcome}
use puring.Submit.Finishes.{submit_lem}

-- The registry, the calls made of liburing, the reference counts and the objects are as they were;
-- memory may have been taken and freed.
pub record Untouched (w w' : World) : Type 0 where
  pub registry : w'.registry ≡ w.registry
  pub trace : w'.trace ≡ w.trace
  pub refs : (x : ℕ) → w'.store.refs x ≡ w.store.refs x
  pub files : (x : ℕ) → w'.store.files x ≡ w.store.files x
  pub sockets : (x : ℕ) → w'.store.sockets x ≡ w.store.sockets x
  pub payloads : (x : ℕ) → w'.store.payloads x ≡ w.store.payloads x
  pub indices : (x : ℕ) → w'.store.indices x ≡ w.store.indices x

pub unchanged : (w : World) → Untouched w w
unchanged w = record {
  registry = refl;
  trace = refl;
  refs = λ x. refl;
  files = λ x. refl;
  sockets = λ x. refl;
  payloads = λ x. refl;
  indices = λ x. refl;
}

pub memory_only :
    (w : World) (freed : List Freed)
    → Untouched w (record w { store = record w.store { freed = freed } })
memory_only w freed = record {
  registry = refl;
  trace = refl;
  refs = λ x. refl;
  files = λ x. refl;
  sockets = λ x. refl;
  payloads = λ x. refl;
  indices = λ x. refl;
}

-- An exception that leaves the state as it was, or what becomes of the request: its slot `e`, its
-- operation `reqs`, and the references `lost` where it is refused.
pub data Answered (k : Liburing) (ready : ℕ → Type 0) (e : ℕ → Entry) (reqs : ℤ → Request)
    (lost : ℕ → ℕ → ℕ) (w : World) : Answer → World → Type 0 where
  turned_away :
      (x : Failure) {w' : World} → Untouched w w' → Answered k ready e reqs lost w (refused x) w'
  requested :
      (future : ℕ) {w' : World} {a : Answer}
      → ready future
      → Outcome k (e future) reqs (lost future) w w' a
      → Answered k ready e reqs lost w a w'

abbrev pub Answers :
    Liburing → (ℕ → Type 0) → (ℕ → Entry) → (ℤ → Request) → (ℕ → ℕ → ℕ) → World → Run → Type 0
Answers k ready e reqs lost w run =
    (a : Answer) × (w' : World) × (run ≡ some (a, w')) × Answered k ready e reqs lost w a w'

-- The future of a method loses a reference.
abbrev pub the_future : ℕ → ℕ → ℕ
the_future future x = count x (some future)

-- Nothing but the future loses one in a tail of `checked_tail`.
pub checked_tail-Gives :
    (failure : ℤ → Failure) (future : ℕ) (on_full : Store → Store)
    → ((s : Store) (x : ℕ) → (on_full s).refs x ≡ (decref future s).refs x)
    → Gives (checked_tail failure future on_full) (the_future future)
checked_tail-Gives failure future on_full same = record {
  full = λ s x. same s x ∙ refs-decref? x (some future) s;
  failed = λ s x. refs-decref? x (some future) s;
  kept = λ s x. refl;
}

module _ (k : Liburing) (fresh : NoReuse k) (tp : TimeoutParams) (w : World)
    (v : IsValid w.registry) (ready : ℕ → Type 0) (e : ℕ → Entry) (reqs : ℤ → Request)
    (lost : ℕ → ℕ → ℕ) where
  pub turn_away :
      (x : Failure) (w' : World)
      → Untouched w w'
      → Answers k ready e reqs lost w (some (refused x, w'))
  turn_away x w' same = (_, _, refl, turned_away x same)

  -- The tail of a method that is ready, in the state `w₁` that it has come to.
  pub submit-Answers :
      (future : ℕ) (tail : Tail) (op : ℤ → Store → Option (Code ℤ × Store)) (after : ℤ → Store)
      → ready future
      → Gives tail (lost future)
      → ((i : ℤ) → op i (registered (e future) w.store) ≡ some (perform k (reqs i) i tp, after i))
      → ((i : ℤ) (x : ℕ) → (after i).refs x ≡ (registered (e future) w.store).refs x)
      → ((i : ℤ) (t : Trace)
          → tail.fails (perform k (reqs i) i tp t).0 ≡ ltb_ℤ (perform k (reqs i) i tp t).0 (pos 1))
      → Answers k ready e reqs lost w (submit tail (e future) op w)
  submit-Answers future tail op after is_ready gives runs keeps decides =
      let (a, w', eq, outcome) =
        submit_lem k fresh tail (e future) op tp w v reqs after (lost future) gives runs keeps
          decides in
      (a, w', eq, requested future is_ready outcome)
