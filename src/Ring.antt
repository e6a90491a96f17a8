-- ===== src/Ring.antt =====
-- src/ring/ring.c: the ring of the loop.
use puring.Base.{ℕ, ℤ, pos, negsuc, is_neg, Option, none, some, ◌∷◌, if◌then◌else◌}
use puring.Uring.{
  Liburing, Prep, prepped, set_data, queue_inited, queue_exited, Code, ◌>>=◌, ◌>>◌, pure, call,
  get_sqe, submit, wakeup_fd_tag,
}

module _ (k : Liburing) where
  -- `io_uring_queue_init(entries, ring, 0)`
  unfoldable queue_init : ℕ → Code ℤ
  queue_init entries t = (k.queue_init_result t, queue_inited entries (k.queue_init_result t) ∷ t)

  unfoldable pub ring_init : Code ℤ
  unfolding queue_init
  ring_init = do result ← queue_init 256; pure (if is_neg result then negsuc 0 else pos 0)

  -- The part of `ring_destroy` from the entry on.
  unfoldable pub cancel_all : Option ℕ → Code (Unit {0})
  unfolding submit
  cancel_all none = pure tt
  cancel_all (some sqe) = do
    call (prepped sqe Prep.cancel_any)
    result ← submit k
    if is_neg result then pure tt else call queue_exited

  -- `ring_destroy` of a ring that is not NULL.
  unfoldable pub ring_destroy : Code (Unit {0})
  unfolding get_sqe cancel_all
  ring_destroy = do sqe ← get_sqe k; cancel_all sqe

  unfoldable pub wakeup_read : ℤ → ℕ → Option ℕ → Code ℤ
  unfolding submit
  wakeup_read wakeup_fd wakeup_buf none = pure (negsuc 0)
  wakeup_read wakeup_fd wakeup_buf (some sqe) = do
    call (prepped sqe (Prep.read wakeup_fd wakeup_buf 8 0))
    call (set_data sqe wakeup_fd_tag)
    _ ← submit k
    pure (pos 0)

  -- `ring_prep_wakeup_read`
  unfoldable pub ring_prep_wakeup_read : ℤ → ℕ → Code ℤ
  unfolding get_sqe wakeup_read
  ring_prep_wakeup_read wakeup_fd wakeup_buf = do
    sqe ← get_sqe k
    wakeup_read wakeup_fd wakeup_buf sqe
