-- ===== src/Uring/Queue.antt =====
-- What a trace leaves in the submission queue, and what it has handed to the kernel: the meaning of
-- the calls by which the operations are specified.
use puring.Base.{
  ℕ, ◌-◌, ◌==◌, ◌≡◌, ◌≢◌, length, take, drop, pos, Option, none, some, List, [], ◌∷◌, if◌then◌else◌,
}
use puring.Uring.{
  Liburing, Prep, Trace, got_sqe, prepped, or_flags, or_ioprio, set_buf_group, set_buf_index,
  set_data, submitted, waited,
}

-- A submission queue entry, as far as the program has filled it in. What is or-ed into a field is
-- listed, the latest first.
pub record Entry : Type 0 where
  pub sqe : ℕ
  pub request : Option Prep
  pub flags : List ℕ
  pub ioprio : List ℕ
  pub buf_group : Option ℕ
  pub buf_index : Option ℕ
  pub user_data : Option ℕ

abbrev pub blank : ℕ → Entry
blank p = record {
  sqe = p;
  request = none;
  flags = [];
  ioprio = [];
  buf_group = none;
  buf_index = none;
  user_data = none;
}

-- An assignment through the address `p`, which goes to the latest entry there.
abbrev pub assign : ℕ → (Entry → Entry) → List Entry → List Entry
assign p f [] = []
assign p f (e ∷ es) = if e.sqe == p then f e ∷ es else e ∷ assign p f es

-- A submission of `n` entries takes the oldest `n` of a queue that has its latest first: what stays
-- behind, and what is handed over.
unfoldable pub left_over : ℕ → List Entry → List Entry
left_over n w = take (length w - n) w

unfoldable pub handed_over : ℕ → List Entry → List Entry
handed_over n w = drop (length w - n) w

-- The entries taken and not yet submitted, the latest first.
unfoldable pub pending : Trace → List Entry
pending [] = []
pending (got_sqe p ∷ t) = blank p ∷ pending t
pending (prepped p r ∷ t) = assign p (λ e. record e { request = some r }) (pending t)
pending (or_flags p v ∷ t) = assign p (λ e. record e { flags = v ∷ e.flags }) (pending t)
pending (or_ioprio p v ∷ t) = assign p (λ e. record e { ioprio = v ∷ e.ioprio }) (pending t)
pending (set_buf_group p v ∷ t) = assign p (λ e. record e { buf_group = some v }) (pending t)
pending (set_buf_index p v ∷ t) = assign p (λ e. record e { buf_index = some v }) (pending t)
pending (set_data p v ∷ t) = assign p (λ e. record e { user_data = some v }) (pending t)
pending (submitted (pos n) ∷ t) = left_over n (pending t)
pending (waited ts n ∷ t) = left_over n (pending t)
pending (_ ∷ t) = pending t

-- The entries that successful submissions have handed over, batch by batch, the latest first: as
-- many of a queue as liburing answered that it submitted.
unfoldable pub sent : Trace → List (List Entry)
unfolding pending
sent [] = []
sent (submitted (pos n) ∷ t) = handed_over n (pending t) ∷ sent t
sent (waited ts n ∷ t) = handed_over n (pending t) ∷ sent t
sent (_ ∷ t) = sent t

-- Of liburing: an entry handed out while another waits unsubmitted is a different one.
abbrev pub NoReuse : Liburing → Type 0
NoReuse k =
    (t : Trace) (p q v : ℕ)
    → k.next_sqe t ≡ some p
    → k.next_sqe (or_flags p v ∷ got_sqe p ∷ t) ≡ some q
    → q ≢ p
