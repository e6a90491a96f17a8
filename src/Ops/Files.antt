-- ===== src/Ops/Files.antt =====
-- src/ops/files: files.c, fixed.c, buffer_select.c and multishot.c.
use puring.Base.{ℕ, ℤ, pos, negsuc, some, Bool, if◌then◌else◌}
use puring.Uring.{
  Liburing, OpenHow, single, array, Prep, prepped, or_flags, set_buf_group, Code, ◌>>◌, call,
}
use puring.Timer.{TimeoutParams, sqe_with_optional_timeout, tag_and_submit}
use puring.Ops.Words.{u16, u32, u64, eqb_ℤ}

abbrev pub open_how : ℕ → ℕ → ℕ → OpenHow
open_how flags mode resolve = record { flags = flags; mode = mode; resolve = resolve }

module _ (k : Liburing) where
  unfoldable pub open_file : ℤ → ℤ → ℕ → ℤ → ℤ → ℕ → TimeoutParams → Code ℤ
  unfolding sqe_with_optional_timeout tag_and_submit
  open_file request_idx dfd path flags resolve mode timeout_params =
      sqe_with_optional_timeout k (some timeout_params) λ sqe. do
        let flags' = if eqb_ℤ flags (negsuc 0) then k.o_rdwr_creat else u64 flags
        let how = open_how flags' mode (u64 resolve)
        call (prepped sqe (Prep.openat2 dfd path how))
        tag_and_submit k sqe request_idx

  unfoldable pub uringio_read : ℤ → ℤ → ℕ → ℕ → ℤ → TimeoutParams → Code ℤ
  unfolding sqe_with_optional_timeout tag_and_submit
  uringio_read request_idx fd buf size offset timeout_params =
      sqe_with_optional_timeout k (some timeout_params) λ sqe. do
        call (prepped sqe (Prep.read fd buf size (u64 offset)))
        tag_and_submit k sqe request_idx

  unfoldable pub uringio_readv : ℤ → ℤ → ℕ → ℕ → ℤ → Bool → TimeoutParams → Code ℤ
  unfolding sqe_with_optional_timeout tag_and_submit
  uringio_readv request_idx fd iovecs nr_vecs offset nowait timeout_params =
      sqe_with_optional_timeout k (some timeout_params) λ sqe. do
        let flags = if nowait then k.rwf_nowait else pos 0
        call (prepped sqe (Prep.readv2 fd (array iovecs) nr_vecs (u64 offset) flags))
        tag_and_submit k sqe request_idx

  unfoldable pub uringio_write : ℤ → ℤ → ℕ → ℕ → ℤ → TimeoutParams → Code ℤ
  unfolding sqe_with_optional_timeout tag_and_submit
  uringio_write request_idx fd buf size offset timeout_params =
      sqe_with_optional_timeout k (some timeout_params) λ sqe. do
        call (prepped sqe (Prep.write fd buf size (u64 offset)))
        tag_and_submit k sqe request_idx

  unfoldable pub uringio_writev : ℤ → ℤ → ℕ → ℕ → ℤ → ℤ → TimeoutParams → Code ℤ
  unfolding sqe_with_optional_timeout tag_and_submit
  uringio_writev request_idx fd iovecs nr_vecs offset flags timeout_params =
      sqe_with_optional_timeout k (some timeout_params) λ sqe. do
        call (prepped sqe (Prep.writev2 fd (array iovecs) nr_vecs (u64 offset) flags))
        tag_and_submit k sqe request_idx

  unfoldable pub uringio_close_file : ℤ → ℤ → TimeoutParams → Code ℤ
  unfolding sqe_with_optional_timeout tag_and_submit
  uringio_close_file request_idx fd timeout_params =
      sqe_with_optional_timeout k (some timeout_params)
        λ sqe. do call (prepped sqe (Prep.close fd)); tag_and_submit k sqe request_idx

  unfoldable pub uringio_fsync : ℤ → ℤ → TimeoutParams → Code ℤ
  unfolding sqe_with_optional_timeout tag_and_submit
  uringio_fsync request_idx fd timeout_params =
      sqe_with_optional_timeout k (some timeout_params)
        λ sqe. do call (prepped sqe (Prep.fsync fd 0)); tag_and_submit k sqe request_idx

  unfoldable pub uringio_fdatasync : ℤ → ℤ → TimeoutParams → Code ℤ
  unfolding sqe_with_optional_timeout tag_and_submit
  uringio_fdatasync request_idx fd timeout_params =
      sqe_with_optional_timeout k (some timeout_params) λ sqe. do
        call (prepped sqe (Prep.fsync fd k.fsync_datasync))
        tag_and_submit k sqe request_idx

  unfoldable pub uringio_splice : ℤ → ℤ → ℤ → ℤ → ℤ → ℤ → ℤ → TimeoutParams → Code ℤ
  unfolding sqe_with_optional_timeout tag_and_submit
  uringio_splice request_idx fd_in off_in fd_out off_out nbytes flag timeout_params =
      sqe_with_optional_timeout k (some timeout_params) λ sqe. do
        call (
            prepped sqe
              (Prep.splice fd_in (u64 off_in) fd_out (u64 off_out) (u32 nbytes) (u32 flag)))
        tag_and_submit k sqe request_idx

  unfoldable pub uringio_read_fixed : ℤ → ℤ → ℕ → ℕ → ℤ → ℤ → TimeoutParams → Code ℤ
  unfolding sqe_with_optional_timeout tag_and_submit
  uringio_read_fixed request_idx fd buf size offset buf_index timeout_params =
      sqe_with_optional_timeout k (some timeout_params) λ sqe. do
        call (prepped sqe (Prep.read_fixed fd buf size (u64 offset) buf_index))
        tag_and_submit k sqe request_idx

  unfoldable pub uringio_write_fixed : ℤ → ℤ → ℕ → ℕ → ℤ → ℤ → TimeoutParams → Code ℤ
  unfolding sqe_with_optional_timeout tag_and_submit
  uringio_write_fixed request_idx fd buf size offset buf_index timeout_params =
      sqe_with_optional_timeout k (some timeout_params) λ sqe. do
        call (prepped sqe (Prep.write_fixed fd buf size (u64 offset) buf_index))
        tag_and_submit k sqe request_idx

  unfoldable pub uringio_read_buffer_select : ℤ → ℤ → ℕ → ℤ → ℤ → TimeoutParams → Code ℤ
  unfolding sqe_with_optional_timeout tag_and_submit
  uringio_read_buffer_select request_idx fd size offset bgid timeout_params =
      sqe_with_optional_timeout k (some timeout_params) λ sqe. do
        call (prepped sqe (Prep.read fd 0 size (u64 offset)))
        call (or_flags sqe k.iosqe_buffer_select)
        call (set_buf_group sqe (u16 bgid))
        tag_and_submit k sqe request_idx

  unfoldable pub uringio_readv_buffer_select : ℤ → ℤ → ℕ → ℤ → ℤ → Bool → TimeoutParams → Code ℤ
  unfolding sqe_with_optional_timeout tag_and_submit
  uringio_readv_buffer_select request_idx fd size offset bgid nowait timeout_params =
      sqe_with_optional_timeout k (some timeout_params) λ sqe. do
        let flags = if nowait then k.rwf_nowait else pos 0
        call (prepped sqe (Prep.readv2 fd (single 0 size) 1 (u64 offset) flags))
        call (or_flags sqe k.iosqe_buffer_select)
        call (set_buf_group sqe (u16 bgid))
        tag_and_submit k sqe request_idx

  unfoldable pub uringio_read_multishot : ℤ → ℤ → ℤ → ℤ → TimeoutParams → Code ℤ
  unfolding sqe_with_optional_timeout tag_and_submit
  uringio_read_multishot request_idx fd offset bgid timeout_params =
      sqe_with_optional_timeout k (some timeout_params) λ sqe. do
        call (prepped sqe (Prep.read_multishot fd 0 (u64 offset) bgid))
        tag_and_submit k sqe request_idx
