-- ===== src/Submit/Outcome.antt =====
-- The two outcomes of a method: its request is accepted, or it is refused.
use puring.Base.{ℕ, ◌+◌, ◌-◌, ◌<◌, ◌≡◌, ◌≢◌, ℤ, pos, none, List, ◌++◌}
use puring.Uring.{Liburing}
use puring.Uring.Queue.{pending, sent}
use puring.Uring.Queue
use puring.Store.{Store, incref, incref?}
use puring.Registry.{Entry, filled, slot_at, registry_add}
use puring.Registry.Valid.{IsValid}
use puring.Registry.RoundTrip.{held}
use puring.Ops.Request.{Request, draft}
use puring.Ops.Contract.{queue, earlier}
use puring.Ops.Results.{Delivered}
use puring.Submit.{World, Answer, Failure, Tail, accepted, refused}

-- The store once `registry_add` has taken its references.
abbrev pub registered : Entry → Store → Store
registered e s = incref? e.file (incref? e.socket (incref e.future s))

-- The references that a method gives up where it is refused: `lost`, at each object.
pub record Gives (tail : Tail) (lost : ℕ → ℕ) : Type 0 where
  pub full : (s : Store) (x : ℕ) → (tail.on_full s).refs x ≡ s.refs x - lost x
  pub failed : (s : Store) (x : ℕ) → (tail.on_failure s).refs x ≡ s.refs x - lost x
  pub kept : (s : Store) (x : ℕ) → (tail.afterwards s).refs x ≡ s.refs x

-- A request that has been accepted: its slot, the one that `registry_add` answers, free before, holds
-- its arguments and no other has changed, the registry is valid, the slot's references are taken, and
-- its entry has been submitted behind those that waited, tagged with the index of the slot: the kernel
-- has been handed as many of them as `io_uring_submit` answered.
pub record Accepted (k : Liburing) (e : Entry) (reqs : ℤ → Request) (w w' : World) : Type 0 where
  pub index : ℕ
  pub answered : (registry_add w.registry e w.store).0 ≡ pos index
  pub in_range : index < w'.registry.size
  pub was_vacant : (slot_at w.registry index).future ≡ none
  pub slot : slot_at w'.registry index ≡ filled e index
  pub others : (j : ℕ) → j ≢ index → slot_at w'.registry j ≡ slot_at w.registry j
  pub size : w'.registry.size ≡ w.registry.size
  pub valid : IsValid w'.registry
  pub refs : (x : ℕ) → w'.store.refs x ≡ w.store.refs x + held x (filled e index)
  pub delivered :
      Delivered k
        (pos index)
        (draft k (reqs (pos index)))
        (k.next_sqe w.trace)
        (k.submit_result (earlier w'.trace))
        (queue w.trace)
        (queue w'.trace)

-- A request that has been refused: the registry is valid, its free indices are what they were, no
-- other object than those of `lost` has gained or lost a reference, and the kernel has been handed
-- nothing; the entries that were prepared, if any, stay in the submission queue.
pub record Refused (lost : ℕ → ℕ) (w w' : World) : Type 0 where
  pub valid : IsValid w'.registry
  pub size : w'.registry.size ≡ w.registry.size
  pub top : w'.registry.top ≡ w.registry.top
  pub indices : w'.registry.available_indices ≡ w.registry.available_indices
  pub futures : (j : ℕ) → (slot_at w'.registry j).future ≡ (slot_at w.registry j).future
  pub refs : (x : ℕ) → w'.store.refs x ≡ w.store.refs x - lost x
  pub unsent : sent w'.trace ≡ sent w.trace
  pub left : List Queue.Entry
  pub left_behind : pending w'.trace ≡ left ++ pending w.trace

-- What a method answers: its future, or an exception.
pub data Outcome (k : Liburing) (e : Entry) (reqs : ℤ → Request) (lost : ℕ → ℕ) (w w' : World)
    : Answer → Type 0 where
  took : Accepted k e reqs w w' → Outcome k e reqs lost w w' (accepted e.future)
  gave_up : (x : Failure) → Refused lost w w' → Outcome k e reqs lost w w' (refused x)
