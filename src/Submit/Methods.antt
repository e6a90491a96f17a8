-- ===== src/Submit/Methods.antt =====
-- The methods of a file that need no buffers, from their guards to their answers.
use puring.Base.{ℕ, refl, ℤ, none}
use puring.Uring.{Liburing}
use puring.Uring.Queue.{NoReuse}
use puring.Timer.{TimeoutParams}
use puring.Registry.{oneshot, Opcode}
use puring.Registry
use puring.Registry.Valid.{IsValid}
use puring.Ops.Request.{Request, perform}
use puring.Submit.{World, Run, file_closed, file_failure}
use puring.Submit.Outcome.{registered}
use puring.Submit.Guards.{Situation, IsReady, guarded-cases, with_future-cases}
use puring.Submit.Files.{
  file_entry, file_tail, without_payload, file_close, file_fsync, file_fdatasync, file_splice,
}
use puring.Submit.Answered.{
  Answers, unchanged, the_future, turn_away, submit-Answers, checked_tail-Gives,
}

module _ (k : Liburing) (fresh : NoReuse k) (c : Situation) (file : ℕ) (tp : TimeoutParams)
    (w : World) (v : IsValid w.registry) where
  abbrev fd : ℤ
  fd = (w.store.files file).fd

  -- What the method of an opcode and a request answers.
  abbrev pub FileAnswers : Opcode → Request → Run → Type 0
  FileAnswers opcode o =
      Answers k (IsReady c (w.store.files file).closed)
        (λ future. file_entry future none oneshot opcode file) (λ i. o) the_future w

  without_payload-Answers :
      (opcode : Opcode) (make : ℤ → Request)
      → FileAnswers opcode
          (make fd)
          (without_payload c file opcode (λ i fd. perform k (make fd) i tp) w)
  unfolding without_payload
  without_payload-Answers opcode make =
      let P = FileAnswers opcode (make fd) in
      guarded-cases P c w file_closed (w.store.files file).closed _
        (λ x. turn_away k fresh tp w v _ _ _ _ x w (unchanged w))
        λ (on, running, is_open, good).
          with_future-cases P c w c.future _ _ (turn_away k fresh tp w v _ _ _ _ _ w (unchanged w))
            λ future made.
              submit-Answers k fresh tp w v _ (λ future. file_entry future none oneshot opcode file)
                (λ i. make fd) the_future future (file_tail future none) _
                (λ i. registered (file_entry future none oneshot opcode file) w.store)
                (on, running, is_open, good, made)
                (checked_tail-Gives file_failure future _ (λ s x. refl)) (λ i. refl) (λ i x. refl)
                (λ i t. refl)

  -- Each of the methods close, fsync, fdatasync and splice of a file, on a valid registry, finishes
  -- without a call of `abort`: it raises and leaves the registry, the calls made of liburing, the
  -- objects and their reference counts as they were, or the guards have let it through and its
  -- request is accepted, or refused: then its slot is given back, only its future has lost a
  -- reference, and the kernel has been handed nothing, but an entry that was prepared for it may
  -- stay in the submission queue. Liburing is taken to hand out no entry twice before it is
  -- submitted.
  pub file_methods-Answers :
      (src dst count offset_src offset_dst flag : ℤ)
      → FileAnswers Registry.close (Request.close_file fd) (file_close k c file tp w)
        × FileAnswers Registry.fsync (Request.fsync fd) (file_fsync k c file tp w)
        × FileAnswers Registry.fsync (Request.fdatasync fd) (file_fdatasync k c file tp w)
        × FileAnswers Registry.splice
            (Request.splice src offset_src dst offset_dst count flag)
            (file_splice k c file tp src dst count offset_src offset_dst flag w)
  unfolding file_close file_fsync file_fdatasync file_splice perform
  file_methods-Answers src dst count offset_src offset_dst flag = (
    without_payload-Answers Registry.close Request.close_file,
    without_payload-Answers Registry.fsync Request.fsync,
    without_payload-Answers Registry.fsync Request.fdatasync,
    without_payload-Answers Registry.splice
        (λ fd. Request.splice src offset_src dst offset_dst count flag),
  )
