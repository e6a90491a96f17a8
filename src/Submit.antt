-- ===== src/Submit.antt =====
-- src/python_api/ops: what the methods of a file do around the operation: the guards, the slot of
-- the request, the operation, and the check of its result (files/files.c, sockets/_helpers.c).
pub mod Guards
pub mod Groups
pub mod Lives
pub mod Files
pub mod Address
pub mod Sockets
pub mod Raw
pub mod Messages
pub mod Module
pub mod Outcome
pub mod Finishes
pub mod Answered
pub mod Leak
pub mod Methods
pub mod SocketMethods
pub mod Transfers
pub mod Objects
use puring.Base.{
  ℕ, ◌≡◌, ℤ, pos, negsuc, is_neg, ltb_ℤ, Option, none, some, Bool, true, false, not, if◌then◌else◌,
}
use puring.Uring.{Trace, Code}
use puring.Store.{Store, decref, free_payload?}
use puring.Registry.{RequestRegistry, Entry, registry_add, registry_remove}
use puring.Dispatch.{◌>>=◌}
use puring.Ops.Words.{eqb_ℤ}

-- The exceptions that the methods raise. `unexplained` is NULL without an exception.
pub data Failure : Type 0 where
  no_loop wrong_thread loop_closing file_closed socket_closed bad_arguments bad_iovecs bad_address
        no_memory no_future no_payload registry_full sqe_not_available wrong_socket_status
        submission_failed body_exception exception_group unexplained :
      Failure

pub data Answer : Type 0 where
  accepted : ℕ → Answer
  refused : Failure → Answer

-- The state that a method works on.
pub record World : Type 0 where
  pub registry : RequestRegistry
  pub store : Store
  pub trace : Trace

-- Here `none` is a call of `abort` or a read through NULL.
abbrev pub Run : Type 0
Run = Option (Answer × World)

-- The exception for a result below 1.
abbrev pub file_failure : ℤ → Failure
file_failure (pos n) = submission_failed
file_failure (negsuc n) = if eqb_ℤ (negsuc n) (negsuc 0) then sqe_not_available else unexplained

abbrev pub socket_failure : ℤ → Failure
socket_failure (pos n) = submission_failed
socket_failure (negsuc n) =
    if eqb_ℤ (negsuc n) (negsuc 0)
    then sqe_not_available
    else if eqb_ℤ (negsuc n) (negsuc 1)
    then wrong_socket_status
    else unexplained

-- The ways in which the tails of the methods differ: which results are failures and the exception
-- for one, and what is done on a full registry, before the slot of a failed request is given back,
-- and after that.
pub record Tail : Type 0 where
  pub fails : ℤ → Bool
  pub failure : ℤ → Failure
  pub on_full : Store → Store
  pub on_failure : Store → Store
  pub afterwards : Store → Store

-- The common part of the checks of a result.
unfoldable pub check_result : Tail → ℤ → ℤ → ℕ → World → Run
check_result tail result request_idx future w =
    if tail.fails result
    then (do
      (registry, store) ← registry_remove w.registry request_idx (tail.on_failure w.store)
      some (
        refused (tail.failure result),
        record w { registry = registry; store = tail.afterwards store },
      ))
    else some (accepted future, w)

-- The tail of a method with `_check_file_result`, or `_check_sockets_result`, and `on_full`.
abbrev pub checked_tail : (ℤ → Failure) → ℕ → (Store → Store) → Tail
checked_tail failure future on_full = record {
  fails = λ result. ltb_ℤ result (pos 1);
  failure = failure;
  on_full = on_full;
  on_failure = decref future;
  afterwards = λ s. s;
}

-- `_check_file_result` and `_check_sockets_result`
unfoldable pub check_file_result : ℤ → ℤ → ℕ → World → Run
unfolding check_result
check_file_result result request_idx future =
    check_result (checked_tail file_failure future (λ s. s)) result request_idx future

unfoldable pub check_sockets_result : ℤ → ℤ → ℕ → World → Run
unfolding check_result
check_sockets_result result request_idx future =
    check_result (checked_tail socket_failure future (λ s. s)) result request_idx future

-- What a method does after `registry_add`, with `op` the operation that it calls.
unfoldable pub run_request :
    Tail → Entry → (ℤ → Store → Option (Code ℤ × Store)) → ℤ × RequestRegistry × Store → Trace → Run
unfolding check_result
run_request tail e op (request_idx, registry, store) t =
    if is_neg request_idx
    then some (
      refused registry_full,
      record { registry = registry; store = tail.on_full store; trace = t },
    )
    else (do
      (code, store') ← op request_idx store
      let (result, t') = code t
      check_result tail result request_idx e.future
          (record { registry = registry; store = store'; trace = t' }))

-- The tail of a method: from `registry_add` on.
unfoldable pub submit : Tail → Entry → (ℤ → Store → Option (Code ℤ × Store)) → World → Run
unfolding run_request
submit tail e op w = run_request tail e op (registry_add w.registry e w.store) w.trace
