-- ===== src/System.antt =====
-- The methods and the reader together: requests go to the kernel and their completions come back,
-- in any order.
pub mod Safe
pub mod Answers
use puring.Base.{ℕ, ◌≡◌, ℤ, pos, negsuc, ltb_ℤ, Option, some, List, [], ◌∷◌, if◌then◌else◌}
use puring.Uring.{Liburing, Trace, Code}
use puring.Timer.{TimeoutParams}
use puring.Store.{Store}
use puring.Registry.{Entry, registry_add}
use puring.Ops.Request.{Request, perform}
use puring.Ops.Words.{eqb_ℤ}
use puring.Submit.{World, Answer, accepted, refused, Tail, submit}
use puring.Submit.Outcome.{registered, Gives}
use puring.Reader.{Cqe, Event, Host}
use puring.Reader.Step.{Loop, index_of, on_cqe}

-- A request that has been accepted and whose index no completion has carried since: the index that
-- it is tagged with, and the future that its method has answered.
pub record Flight : Type 0 where
  pub index : ℕ
  pub future : ℕ

pub record System : Type 0 where
  pub loop : Loop
  pub flights : List Flight

-- The requests in flight once a method has answered, with the index that `registry_add` gave it.
abbrev pub noted : Answer → ℤ → List Flight → List Flight
noted (accepted future) (pos i) flights = record { index = i; future = future } ∷ flights
noted (accepted future) (negsuc i) flights = flights
noted (refused x) i flights = flights

-- The requests in flight once a completion has carried an index.
abbrev pub without : ℤ → List Flight → List Flight
without i [] = []
without i (x ∷ xs) = if eqb_ℤ i (pos x.index) then without i xs else x ∷ without i xs

-- The list without one of its elements.
pub data Takes {ℓ} {A : Type ℓ} (x : A) : List A → List A → Type ℓ where
  first : {xs : List A} → Takes x (x ∷ xs) xs
  later : {y : A} {xs ys : List A} → Takes x xs ys → Takes x (y ∷ xs) (y ∷ ys)

-- The tail of a method whose operation runs one of the requests, with its two conditions.
pub record Call (k : Liburing) (w : World) : Type 0 where
  pub tail : Tail
  pub entry : Entry
  pub op : ℤ → Store → Option (Code ℤ × Store)
  pub timeout : TimeoutParams
  pub reqs : ℤ → Request
  pub after : ℤ → Store
  pub lost : ℕ → ℕ
  pub gives : Gives tail lost
  pub runs :
      (i : ℤ) → op i (registered entry w.store) ≡ some (perform k (reqs i) i timeout, after i)
  pub keeps : (i : ℤ) (x : ℕ) → (after i).refs x ≡ (registered entry w.store).refs x
  pub decides :
      (i : ℤ) (t : Trace)
      → tail.fails (perform k (reqs i) i timeout t).0
        ≡ ltb_ℤ (perform k (reqs i) i timeout t).0 (pos 1)

-- A step: a method submits its request; the reader takes a completion, of any tag and any result; or
-- something happens that leaves the registry as it is, such as a turn of the reader on an accepted
-- connection whose socket cannot be made. Nothing is asked of the completions: they may come any
-- number of times for an entry, as those of multishot and zero-copy requests do, or for an entry that
-- a refused submission has left in the queue.
pub data Step (k : Liburing) (h : Host) (s : System) : System → Type 0 where
  submits :
      (c : Call k s.loop.world) {a : Answer} {w' : World} (events : List Event)
      → submit c.tail c.entry c.op s.loop.world ≡ some (a, w')
      → Step k h s (record {
        loop = record { world = w'; events = events };
        flights =
            noted a (registry_add s.loop.world.registry c.entry s.loop.world.store).0 s.flights;
      })
  completes :
      (cqe : Cqe) {st' : Loop}
      → on_cqe k h cqe s.loop ≡ some st'
      → Step k h s (record { loop = st'; flights = without (index_of cqe) s.flights })
  elsewhere :
      (st' : Loop)
      → st'.world.registry ≡ s.loop.world.registry
      → Step k h s (record { loop = st'; flights = s.flights })

pub data Reach (k : Liburing) (h : Host) (s : System) : System → Type 0 where
  start : Reach k h s s
  next : {t u : System} → Reach k h s t → Step k h t u → Reach k h s u
