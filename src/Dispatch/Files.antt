-- ===== src/Dispatch/Files.antt =====
-- file_ops_dispatcher.c: the operation of a file by the mode of its payload. Each answers the
-- operation to run, with the store that it runs in.
use puring.Base.{ℕ, ℤ, pos, Option, some, Bool, if◌then◌else◌}
use puring.Uring.{Liburing, Code}
use puring.Timer.{TimeoutParams}
use puring.Buffers.{BufferMode, fixed, provided, buf_ring, is_fixed, is_selecting}
use puring.Store.{Store}
use puring.Registry.{StreamStrategy, oneshot, multishot}
use puring.Ops.Words.{u32}
use puring.Ops.Files.{
  uringio_read, uringio_readv, uringio_write, uringio_read_fixed, uringio_write_fixed,
  uringio_read_buffer_select, uringio_readv_buffer_select, uringio_read_multishot,
}
use puring.Dispatch.{◌>>=◌, linear_of, vector_of, take_index}

module _ (k : Liburing) where
  unfoldable read_select : StreamStrategy → ℤ → ℤ → ℤ → ℤ → ℤ → TimeoutParams → Code ℤ
  read_select multishot request_idx fd size offset bgid tp =
      uringio_read_multishot k request_idx fd offset bgid tp
  read_select oneshot request_idx fd size offset bgid tp =
      uringio_read_buffer_select k request_idx fd (u32 size) offset bgid tp

  -- The `switch` of `read_dispatcher`.
  unfoldable pub read_by_mode :
      BufferMode
      → ℕ
      → ℤ
      → StreamStrategy
      → ℤ
      → ℤ
      → ℤ
      → TimeoutParams
      → Store
      → Option (Code ℤ × Store)
  unfolding read_select
  read_by_mode fixed p fd stream request_idx size offset tp s = do
    (buf_idx, s') ← take_index p s
    linear ← linear_of (s.payloads p)
    some (uringio_read_fixed k request_idx fd linear.buffer (u32 size) offset buf_idx tp, s')
  read_by_mode provided p fd stream request_idx size offset tp s =
      some (read_select stream request_idx fd size offset (s.payloads p).bgid tp, s)
  read_by_mode buf_ring p fd stream request_idx size offset tp s =
      some (read_select stream request_idx fd size offset (s.payloads p).bgid tp, s)
  read_by_mode _ p fd stream request_idx size offset tp s = do
    linear ← linear_of (s.payloads p)
    some (uringio_read k request_idx fd linear.buffer (u32 size) offset tp, s)

  unfoldable pub read_dispatcher :
      ℤ → ℕ → StreamStrategy → ℤ → ℤ → ℤ → TimeoutParams → Store → Option (Code ℤ × Store)
  unfolding read_by_mode read_select
  read_dispatcher fd p stream request_idx size offset tp s =
      read_by_mode (s.payloads p).mode p fd stream request_idx size offset tp s

  -- The two cases of the `switch` of `readv_dispatcher`.
  unfoldable readv_select : ℤ → ℕ → ℤ → ℤ → Bool → TimeoutParams → Store → Option (Code ℤ × Store)
  readv_select fd p request_idx offset nowait tp s = do
    linear ← linear_of (s.payloads p)
    some (
      uringio_readv_buffer_select k request_idx fd (u32 (pos linear.len)) offset (s.payloads p).bgid
          nowait tp,
      s,
    )

  unfoldable readv_given : ℤ → ℕ → ℤ → ℤ → Bool → TimeoutParams → Store → Option (Code ℤ × Store)
  readv_given fd p request_idx offset nowait tp s = do
    vector ← vector_of (s.payloads p)
    some (uringio_readv k request_idx fd vector.iovecs_address vector.nr_vecs offset nowait tp, s)

  unfoldable pub readv_dispatcher :
      ℤ → ℕ → ℤ → ℤ → Bool → TimeoutParams → Store → Option (Code ℤ × Store)
  unfolding readv_select readv_given
  readv_dispatcher fd p request_idx offset nowait tp s =
      if is_selecting (s.payloads p).mode
      then readv_select fd p request_idx offset nowait tp s
      else readv_given fd p request_idx offset nowait tp s

  unfoldable pub write_dispatcher : ℤ → ℕ → ℤ → ℤ → TimeoutParams → Store → Option (Code ℤ × Store)
  write_dispatcher fd p request_idx offset tp s =
      if is_fixed (s.payloads p).mode
      then (do
        (buf_idx, s') ← take_index p s
        linear ← linear_of (s.payloads p)
        some (
          uringio_write_fixed k request_idx fd linear.buffer (u32 (pos linear.len)) offset buf_idx
              tp,
          s',
        ))
      else (do
        linear ← linear_of (s.payloads p)
        some (uringio_write k request_idx fd linear.buffer (u32 (pos linear.len)) offset tp, s))
