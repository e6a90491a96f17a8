-- ===== src/Submit/Files.antt =====
-- src/python_api/ops/files/files.c: the methods of a file, from the guards on.
use puring.Base.{ℕ, ℤ, Option, none, some, Bool, false}
use puring.Uring.{Liburing, Code}
use puring.Timer.{TimeoutParams}
use puring.Store.{Store, decref, free_payload?}
use puring.Registry.{StreamStrategy, oneshot, Opcode, Entry}
use puring.Registry
use puring.Dispatch.{vector_of}
use puring.Dispatch.Files.{read_dispatcher, readv_dispatcher, write_dispatcher}
use puring.Ops.Files.{
  uringio_writev, uringio_close_file, uringio_fsync, uringio_fdatasync, uringio_splice,
}
use puring.Submit.{file_closed, World, Run, submit, Tail, checked_tail, file_failure}
use puring.Submit.Guards.{Situation, guarded, with_future, with_payload}

-- The slot of a file's request.
abbrev pub file_entry : ℕ → Option ℕ → StreamStrategy → Opcode → ℕ → Entry
file_entry future payload stream opcode file = record {
  future = future;
  buffer_payload = payload;
  stream_strategy = stream;
  opcode = opcode;
  file = some file;
  socket = none;
  addr = none;
  msghdr = none;
}

-- The tail of a method of a file: on a full registry it frees the payload.
abbrev pub file_tail : ℕ → Option ℕ → Tail
file_tail future payload =
    checked_tail file_failure future (λ s. free_payload? payload false (decref future s))

-- A method without a payload. `registry_add` changes no descriptor.
unfoldable pub without_payload : Situation → ℕ → Opcode → (ℤ → ℤ → Code ℤ) → World → Run
unfolding guarded with_future
without_payload c file opcode op w = guarded c file_closed (w.store.files file).closed w (
    with_future c.future (λ s. s) w
      λ future.
        submit (file_tail future none) (file_entry future none oneshot opcode file)
          (λ i s. some (op i (w.store.files file).fd, s)) w)

module _ (k : Liburing) (c : Situation) (file : ℕ) (tp : TimeoutParams) where
  unfoldable pub file_close : World → Run
  unfolding without_payload
  file_close = without_payload c file Registry.close (λ i fd. uringio_close_file k i fd tp)

  unfoldable pub file_fsync : World → Run
  unfolding without_payload
  file_fsync = without_payload c file Registry.fsync (λ i fd. uringio_fsync k i fd tp)

  unfoldable pub file_fdatasync : World → Run
  unfolding without_payload
  file_fdatasync = without_payload c file Registry.fsync (λ i fd. uringio_fdatasync k i fd tp)

  unfoldable pub file_splice : ℤ → ℤ → ℤ → ℤ → ℤ → ℤ → World → Run
  unfolding without_payload
  file_splice src dst count offset_src offset_dst flag =
      without_payload c file Registry.splice
        (λ i fd. uringio_splice k i src offset_src dst offset_dst count flag tp)

-- A method that creates its future first.
unfoldable pub future_first :
    Situation
    → ℕ
    → Opcode
    → StreamStrategy
    → (ℕ → ℤ → Store → Option (Code ℤ × Store))
    → World
    → Run
unfolding guarded with_future with_payload
future_first c file opcode stream op w = guarded c file_closed (w.store.files file).closed w (
    with_future c.future (λ s. s) w
      λ future. with_payload c.payload (decref future) w λ payload.
        submit (file_tail future (some payload))
          (file_entry future (some payload) stream opcode file) (op payload) w)

-- A method that creates its payload first.
unfoldable pub payload_first :
    Situation → ℕ → Opcode → (ℕ → ℤ → Store → Option (Code ℤ × Store)) → World → Run
unfolding guarded with_future with_payload
payload_first c file opcode op w = guarded c file_closed (w.store.files file).closed w (
    with_payload c.payload (λ s. s) w
      λ payload. with_future c.future (free_payload? (some payload) false) w λ future.
        submit (file_tail future (some payload))
          (file_entry future (some payload) oneshot opcode file) (op payload) w)

module _ (k : Liburing) where
  -- `uringio_writev` on the vectors of the payload.
  abbrev writev_payload : ℕ → ℤ → ℤ → TimeoutParams → ℕ → ℤ → Store → Option (Code ℤ × Store)
  writev_payload file offset flags tp p i s = elim (vector_of (s.payloads p)) [
    | none ↦ none
    | some vector ↦ some (
      uringio_writev k i (s.files file).fd vector.iovecs_address vector.nr_vecs offset flags tp,
      s,
    )
  ]

  module _ (c : Situation) (file : ℕ) (tp : TimeoutParams) where
    unfoldable pub file_read : StreamStrategy → ℤ → ℤ → World → Run
    unfolding future_first
    file_read stream size offset =
        future_first c file Registry.read stream
          (λ p i s. read_dispatcher k (s.files file).fd p stream i size offset tp s)

    unfoldable pub file_write : ℤ → World → Run
    unfolding future_first
    file_write offset =
        future_first c file Registry.write oneshot
          (λ p i s. write_dispatcher k (s.files file).fd p i offset tp s)

    unfoldable pub file_readv : ℤ → Bool → World → Run
    unfolding payload_first
    file_readv offset nowait =
        payload_first c file Registry.readv
          (λ p i s. readv_dispatcher k (s.files file).fd p i offset nowait tp s)

    unfoldable pub file_writev : ℤ → ℤ → World → Run
    unfolding payload_first
    file_writev offset flags =
        payload_first c file Registry.writev (writev_payload file offset flags tp)
