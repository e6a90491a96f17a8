-- ===== src/Submit/Raw.antt =====
-- src/python_api/ops/files/files.c: the methods of a file on an array of vectors that the caller has
-- made, and `__aexit__`.
use puring.Base.{
  ℕ, ◌%◌, ◌^◌, ◌==◌, ℤ, pos, Option, none, some, Bool, true, false, not, if◌then◌else◌,
}
use puring.Uring.{Liburing, Code}
use puring.Timer.{TimeoutParams}
use puring.Store.{Store, update, incref, decref, free_payload?}
use puring.Registry.{oneshot, Opcode}
use puring.Registry
use puring.Dispatch.{◌>>=◌, vector_of}
use puring.Ops.Words.{u32}
use puring.Ops.Files.{uringio_readv, uringio_writev, uringio_close_file}
use puring.Submit.{
  file_closed, bad_arguments, bad_iovecs, refused, World, Run, Tail, checked_tail, file_failure,
  submit,
}
use puring.Submit.Guards.{Situation, guarded, with_future, with_payload}
use puring.Submit.Files.{file_entry, file_tail}
use puring.Submit.Sockets.{in_body, zero_timeout}

-- A `Py_buffer`: the object that it keeps alive, its length, and whether it is contiguous.
pub record View : Type 0 where
  pub exporter : ℕ
  pub len : ℕ
  pub contiguous : Bool

-- `sizeof(struct iovec)`
abbrev pub sizeof_iovec : ℕ
sizeof_iovec = 16

-- `PyObject_GetBuffer`, with the checks of the array for which `misfit` gives the remainder of its
-- length. Releasing the view gives the reference to its object back.
unfoldable pub with_iovecs : Option View → (ℕ → ℕ) → World → (View → World → Run) → Run
with_iovecs none misfit w next = some (refused bad_arguments, w)
with_iovecs (some view) misfit w next =
    if not (misfit view.len == 0)
    then some (refused bad_iovecs, w)
    else if not view.contiguous
    then some (refused bad_iovecs, w)
    else next view (record w { store = incref view.exporter w.store })

module _ (k : Liburing) (c : Situation) (file : ℕ) (tp : TimeoutParams) where
  -- The rest of the two methods, in the state with the view; `release` is what is done to the view
  -- where there is no payload.
  unfoldable pub raw_method : Opcode → (Store → Store) → (ℤ → ℤ → ℕ → ℕ → Code ℤ) → World → Run
  unfolding with_future with_payload
  raw_method opcode release op w = with_payload c.payload release w λ payload.
      with_future c.future (free_payload? (some payload) false) w λ future.
        submit (file_tail future (some payload))
          (file_entry future (some payload) oneshot opcode file)
          (λ i s. do
            vector ← vector_of (s.payloads payload)
            some (op i (w.store.files file).fd vector.iovecs_address (u32 (pos vector.nr_vecs)), s))
          w

  -- Without a payload the view is not released.
  unfoldable pub file_readv_raw : Option View → ℤ → Bool → World → Run
  unfolding guarded with_iovecs raw_method
  file_readv_raw view offset nowait w = guarded c file_closed (w.store.files file).closed w (
      with_iovecs view (λ len. len % 2 ^ 32 % sizeof_iovec) w
        λ view w₁.
          raw_method Registry.readv (λ s. s)
            (λ i fd iovecs nr_vecs. uringio_readv k i fd iovecs nr_vecs offset nowait tp) w₁)

  unfoldable pub file_writev_raw : Option View → ℤ → ℤ → World → Run
  unfolding guarded with_iovecs raw_method
  file_writev_raw view offset flags w = guarded c file_closed (w.store.files file).closed w (
      with_iovecs view (λ len. len % sizeof_iovec) w
        λ view w₁.
          raw_method Registry.writev (decref view.exporter)
            (λ i fd iovecs nr_vecs. uringio_writev k i fd iovecs nr_vecs offset flags tp) w₁)

-- `self->closed = ...`
abbrev pub set_file_closed : ℕ → Bool → Store → Store
set_file_closed file closed s = record s {
  files = update s.files file (record (s.files file) { closed = closed });
}

abbrev pub file_close_tail : ℕ → ℕ → Tail
file_close_tail future file = record (checked_tail file_failure future (decref future)) {
  afterwards = set_file_closed file false;
}

-- `UringioFile_aexit`: it asks neither for the thread nor whether the file is closed.
unfoldable pub file_aexit : Liburing → Situation → Bool → ℕ → World → Run
unfolding with_future in_body
file_aexit k c had_exception file w =
    if not c.parsed
    then some (refused bad_arguments, w)
    else in_body had_exception (
        with_future c.future (λ s. s) w
          λ future.
            submit (file_close_tail future file)
              (file_entry future none oneshot Registry.close file)
              (λ i s. some (
                uringio_close_file k i (w.store.files file).fd zero_timeout,
                set_file_closed file true s,
              ))
              w)
