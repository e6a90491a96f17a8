-- ===== src/Timer.antt =====
-- src/timer/timer.c, and the macro of src/macroses.h that opens every operation.
use puring.Base.{
  ℕ, ℤ, pos, negsuc, is_neg, is_zero, to_unsigned, Option, none, some, Bool, not, ◌&&◌,
  if◌then◌else◌,
}
use puring.Uring.{
  Liburing, Timespec, Prep, prepped, or_flags, set_data, Code, ◌>>=◌, ◌>>◌, pure, call, get_sqe,
  submit, create_sqe,
}

pub record TimerParams : Type 0 where
  pub sec : ℤ
  pub nsec : ℤ
  pub count : ℤ
  pub is_multishot : Bool

pub record TimeoutParams : Type 0 where
  pub sec : ℤ
  pub nsec : ℤ
  pub is_required : Bool

-- `sec == 0 && nsec == 0 && !is_required`
abbrev pub is_idle : TimeoutParams → Bool
is_idle p = is_zero p.sec && is_zero p.nsec && not p.is_required

abbrev pub timespec : ℤ → ℤ → Timespec
timespec sec nsec = record { tv_sec = sec; tv_nsec = nsec }

module _ (k : Liburing) where
  -- The end that all operations share: tag the entry with the request's index, submit, and turn a
  -- failure into 0.
  unfoldable pub tag_and_submit : ℕ → ℤ → Code ℤ
  unfolding submit
  tag_and_submit sqe request_idx = do
    call (set_data sqe (to_unsigned 64 request_idx))
    result ← submit k
    pure (if is_neg result then pos 0 else pos 1)

  -- `timer`; its parameters may be NULL.
  unfoldable pub timer : ℤ → Option TimerParams → Code ℤ
  unfolding create_sqe tag_and_submit
  timer request_idx none = pure (negsuc 0)
  timer request_idx (some p) = do
    found ← create_sqe k
    elim found [
      | none ↦ pure (negsuc 0)
      | some sqe ↦ do
        let flag = if p.is_multishot then k.timeout_multishot else 0
        call (prepped sqe (Prep.timeout (timespec p.sec p.nsec) (to_unsigned 32 p.count) flag))
        tag_and_submit sqe request_idx
    ]

  -- The second half of `timeout`, from the entry that it found.
  unfoldable pub link_timeout : TimeoutParams → Option ℕ → Code ℤ
  link_timeout p none = pure (if p.is_required then negsuc 0 else pos 0)
  link_timeout p (some timeout_sqe) = do
    call (prepped timeout_sqe (Prep.link_timeout (timespec p.sec p.nsec) 0))
    pure (pos 0)

  -- `timeout`: links an entry for the timeout behind `sqe`. It fails only where a required timeout
  -- finds no entry.
  unfoldable pub timeout : ℕ → Option TimeoutParams → Code ℤ
  unfolding link_timeout
  timeout sqe none = pure (pos 0)
  timeout sqe (some p) = if is_idle p then pure (pos 0) else do
    call (or_flags sqe k.iosqe_io_link)
    timeout_sqe ← get_sqe k
    link_timeout p timeout_sqe

  -- The second half of the macro below, from the entry that it found.
  unfoldable pub time_and_run : Option TimeoutParams → (ℕ → Code ℤ) → Option ℕ → Code ℤ
  time_and_run timeout_params rest none = pure (negsuc 0)
  time_and_run timeout_params rest (some sqe) = do
    result ← timeout sqe timeout_params
    if is_neg result then pure (negsuc 0) else rest sqe

  -- `SQE_WITH_OPTIONAL_TIMEOUT(ring, timeout_params)`; `rest` is the code below it, which runs
  -- unless the macro returns.
  unfoldable pub sqe_with_optional_timeout : Option TimeoutParams → (ℕ → Code ℤ) → Code ℤ
  unfolding time_and_run
  sqe_with_optional_timeout timeout_params rest = do
    sqe ← create_sqe k
    time_and_run timeout_params rest sqe
