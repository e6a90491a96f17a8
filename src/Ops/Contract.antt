-- ===== src/Ops/Contract.antt =====
-- The specification of the operations of src/ops: what one does to the submission queue.
use puring.Base.{
  ℕ, ℤ, pos, negsuc, to_unsigned, Option, none, some, List, [], ◌∷◌, ◌++◌, if◌then◌else◌,
}
use puring.Uring.{Liburing, Prep, Trace, got_sqe, or_flags}
use puring.Uring.Queue.{Entry, blank, left_over, handed_over, pending, sent}
use puring.Timer.{TimeoutParams, is_idle, timespec}
use puring.Ops.Request.{Draft}

-- The submission queue, and the batches handed over.
pub record Queue : Type 0 where
  pub waiting : List Entry
  pub batches : List (List Entry)

abbrev pub queue : Trace → Queue
queue t = record { waiting = pending t; batches = sent t }

-- The entry of a draft, behind the flags that it already has.
abbrev pub fill : ℕ → ℤ → List ℕ → Draft → Entry
fill p i link d = record {
  sqe = p;
  request = some d.request;
  flags = d.flags ++ link;
  ioprio = d.ioprio;
  buf_group = d.buf_group;
  buf_index = d.buf_index;
  user_data = some (to_unsigned 64 i);
}

-- The entry of a linked timeout: it carries no tag.
abbrev pub link_entry : ℕ → TimeoutParams → Entry
link_entry q tp = record (blank q) {
  request = some (Prep.link_timeout (timespec tp.sec tp.nsec) 0);
}

-- A submission hands over as many of the oldest entries as it answers, and 1 is returned whatever
-- that number is.
unfoldable pub flush : ℤ → Queue → ℤ × Queue
flush (pos n) q = (
  pos 1,
  record { waiting = left_over n q.waiting; batches = handed_over n q.waiting ∷ q.batches },
)
flush (negsuc n) q = (pos 0, q)

-- The last part of an operation, with `before` the timeout's entry and `link` the flags.
abbrev pub finish : Option Draft → ℕ → ℤ → List ℕ → List Entry → ℤ → Queue → ℤ × Queue
finish none p i link before r q =
    (negsuc 1, record q { waiting = before ++ record (blank p) { flags = link } ∷ q.waiting })
finish (some d) p i link before r q =
    flush r (record q { waiting = before ++ fill p i link d ∷ q.waiting })

module _ (k : Liburing) where
  -- The specification: from the draft, the tag, the timeout and the answers of liburing (the two
  -- entries and the submission's result), the return value and the queue afterwards.
  unfoldable pub post :
      Option Draft → ℤ → TimeoutParams → Option ℕ → Option ℕ → ℤ → Queue → ℤ × Queue
  unfolding flush
  post d i tp none second r q = (negsuc 0, q)
  post d i tp (some p) second r q = if is_idle tp then finish d p i [] [] r q else elim second [
    | none ↦
        if tp.is_required
        then (
          negsuc 0,
          record q { waiting = record (blank p) { flags = k.iosqe_io_link ∷ [] } ∷ q.waiting },
        )
        else finish d p i (k.iosqe_io_link ∷ []) [] r q
    | some s ↦ finish d p i (k.iosqe_io_link ∷ []) (link_entry s tp ∷ []) r q
  ]

  -- What `io_uring_get_sqe` answers to the timeout of an operation begun at `t`.
  abbrev pub second_sqe : Trace → Option ℕ
  second_sqe t = elim (k.next_sqe t) [
    | none ↦ none
    | some p ↦ k.next_sqe (or_flags p k.iosqe_io_link ∷ got_sqe p ∷ t)
  ]

-- The calls before the latest.
abbrev pub earlier : Trace → Trace
earlier [] = []
earlier (c ∷ t) = t
