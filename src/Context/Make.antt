-- ===== src/Context/Make.antt =====
-- src/python_api/execution_context/execution_context.c: the methods of the loop that make the objects
-- for a context, and the checks of their arguments.
use puring.Base.{ℕ, zero, suc, ℤ, pos, Option, none, some, Bool, true, false, not, if◌then◌else◌}
use puring.Buffers.{
  BufferMode, normal_buf, fixed, provided, buf_ring, PayloadType, payload_linear, payload_iovec,
  payload_linear_and_iovec,
}
use puring.Registry.{StreamStrategy, oneshot, multishot}
use puring.Store.{update, free_payload?}
use puring.Dispatch.{TransferMode, normal_transfer, zero_copy}
use puring.Submit.Guards.{Situation}
use puring.Context.{Python, Ctx}
use puring.Context.Switch.{BufferModeCtx}

-- `_validate_buffer_mode` and `_validate_payload_type` of the number that Python has passed; `none` is
-- the enumerator without a value.
unfoldable pub validate_buffer_mode : ℤ → Option BufferMode
validate_buffer_mode (pos zero) = some normal_buf
validate_buffer_mode (pos (suc zero)) = some fixed
validate_buffer_mode (pos (suc (suc zero))) = some provided
validate_buffer_mode (pos (suc (suc (suc zero)))) = some buf_ring
validate_buffer_mode _ = none

unfoldable pub validate_payload_type : ℤ → Option PayloadType
validate_payload_type (pos zero) = some payload_linear
validate_payload_type (pos (suc zero)) = some payload_iovec
validate_payload_type (pos (suc (suc zero))) = some payload_linear_and_iovec
validate_payload_type _ = none

-- The two `switch` on the other arguments.
unfoldable pub check_stream : ℤ → Option StreamStrategy
check_stream (pos zero) = some oneshot
check_stream (pos (suc zero)) = some multishot
check_stream _ = none

unfoldable pub check_transfer : ℤ → Option TransferMode
check_transfer (pos zero) = some normal_transfer
check_transfer (pos (suc zero)) = some zero_copy
check_transfer _ = none

-- The guards of the methods: NULL, or what follows.
abbrev pub when_open {ℓ} : {A : Type ℓ} → Situation → Python → Option A × Python → Option A × Python
when_open c s next =
    if not c.on_loop_thread
    then (none, s)
    else if c.is_closing
    then (none, s)
    else if not c.parsed
    then (none, s)
    else next

-- `PyObject_New` of a context without buffers; `token` is what its memory holds.
abbrev pub new_ctx : {A : Type 0} → Bool → Option A → Ctx A → Python → Option (Ctx A) × Python
new_ctx made none memory s = (none, s)
new_ctx false (some payload) memory s = (none, s)
new_ctx true (some payload) memory s = (some (record memory { payload = payload }), s)

unfoldable pub loop_stream_strategy :
    Situation → ℤ → Bool → Ctx StreamStrategy → Python → Option (Ctx StreamStrategy) × Python
unfolding check_stream
loop_stream_strategy c stream made memory s =
    when_open c s (new_ctx made (check_stream stream) memory s)

unfoldable pub loop_transfer_mode :
    Situation → ℤ → Bool → Ctx TransferMode → Python → Option (Ctx TransferMode) × Python
unfolding check_transfer
loop_transfer_mode c mode made memory s =
    when_open c s (new_ctx made (check_transfer mode) memory s)

-- The end of `UringioLoop_buffer_mode`, from the payload on.
unfoldable pub new_buffer_mode :
    Bool → BufferMode → Option ℕ → Python → Option BufferModeCtx × Python
new_buffer_mode made mode none s = (none, s)
new_buffer_mode false mode (some payload) s =
    (none, record s { store = free_payload? (some payload) true s.store })
new_buffer_mode true mode (some payload) s =
    (some (record { payload = mode; buffer_payload = payload; token = none }), s)

unfoldable pub typed_buffer_mode :
    (BufferMode → PayloadType → Option ℕ)
    → Bool
    → Option BufferMode
    → Option PayloadType
    → Python
    → Option BufferModeCtx × Python
unfolding new_buffer_mode
typed_buffer_mode create made (some mode) (some type) s =
    new_buffer_mode made mode (create mode type) s
typed_buffer_mode create made _ _ s = (none, s)

-- `UringioLoop_buffer_mode`, with what `create_buffer_payload` answers.
unfoldable pub loop_buffer_mode :
    Situation
    → (BufferMode → PayloadType → Option ℕ)
    → Bool
    → ℤ
    → ℤ
    → Python
    → Option BufferModeCtx × Python
unfolding validate_buffer_mode validate_payload_type typed_buffer_mode
loop_buffer_mode c create made mode payload_type s = when_open c s (
    typed_buffer_mode create made (validate_buffer_mode mode) (validate_payload_type payload_type)
      s)

-- `ExecutionContextCtx`: its context and its payload.
pub record ExecutionContextCtx : Type 0 where
  pub context : ℕ
  pub payload : ℕ

-- The end of `UringioLoop_execution_context`, from the payload on: where it fails, the payload stays.
unfoldable pub new_execution_context :
    Bool
    → Option ℕ
    → BufferMode
    → Option StreamStrategy
    → Option TransferMode
    → Option ℕ
    → Python
    → Option ExecutionContextCtx × Python
new_execution_context true (some context) mode (some stream) (some transfer) (some payload) s = (
  some (record { context = context; payload = payload }),
  record s {
    contexts = update s.contexts context (record {
      buffer_mode = mode;
      stream = stream;
      transfer_mode = transfer;
      buffer_payload = some payload;
    });
  },
)
new_execution_context made memory mode stream transfer payload s = (none, s)

unfoldable pub typed_execution_context :
    (BufferMode → PayloadType → Option ℕ)
    → Bool
    → Option ℕ
    → Option BufferMode
    → Option PayloadType
    → Option StreamStrategy
    → Option TransferMode
    → Python
    → Option ExecutionContextCtx × Python
unfolding new_execution_context
typed_execution_context create made memory (some mode) (some type) stream transfer s =
    new_execution_context made memory mode stream transfer (create mode type) s
typed_execution_context create made memory _ _ stream transfer s = (none, s)

-- `UringioLoop_execution_context`; `made` and `memory` are the object and the memory of its context.
unfoldable pub loop_execution_context :
    Situation
    → (BufferMode → PayloadType → Option ℕ)
    → Bool
    → Option ℕ
    → ℤ
    → ℤ
    → ℤ
    → ℤ
    → Python
    → Option ExecutionContextCtx × Python
unfolding validate_buffer_mode validate_payload_type check_stream check_transfer
    typed_execution_context
loop_execution_context c create made memory mode payload_type stream transfer s = when_open c s (
    typed_execution_context create made memory (validate_buffer_mode mode)
      (validate_payload_type payload_type) (check_stream stream) (check_transfer transfer) s)
