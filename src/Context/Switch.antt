-- ===== src/Context/Switch.antt =====
-- src/python_api/execution_context/execution_context.c: the objects that hand buffers to the kernel
-- for a block.
use puring.Base.{
  ℕ, ℤ, pos, negsuc, is_neg, to_signed, Option, none, some, Bool, true, false, [], ◌∷◌, ◌++◌,
  if◌then◌else◌,
}
use puring.Uring.{Liburing, Trace}
use puring.Buffers.{
  BufferMode, fixed, provided, buf_ring, BufferPayload, LinearBuffer, VectoredBuffer,
  payload_linear, memory,
}
use puring.BufferIndex.{
  FixedBufferIdxRegistry, buffer_idx_registry_create, buffer_idx_registry_destroy,
}
use puring.Store.{update}
use puring.Ops.Words.{u32}
use puring.Dispatch.{◌>>=◌, linear_of, vector_of}
use puring.Modes.{init_fixed_mode, close_fixed_mode, init_provided_mode, close_provided_mode}
use puring.Context.{
  Variable, capsule, Python, Given, context_var_get, context_var_set, context_var_reset,
  enter_changed,
}

-- `BufferModeCtx`
pub record BufferModeCtx : Type 0 where
  pub payload : BufferMode
  pub buffer_payload : ℕ
  pub token : Option Variable

-- The payload at an address, changed.
abbrev pub set_payload : ℕ → (BufferPayload → BufferPayload) → Python → Python
set_payload p change s = record s {
  store = record s.store { payloads = update s.store.payloads p (change (s.store.payloads p)) };
}

-- The new registry of indices of a payload of registered buffers, which loses its vectors.
abbrev pub indexed : Given → ℕ → FixedBufferIdxRegistry → Python → Python
indexed g p reg s =
    set_payload p
      (λ payload. record payload {
        idx_registry = some g.registry_at;
        vector = none;
        payload_type = payload_linear;
      })
      (record s { store = record s.store { indices = update s.store.indices g.registry_at reg } })

unfoldable pub with_indices : Given → ℕ → Option FixedBufferIdxRegistry → Python → Bool × Python
with_indices g p none s = (false, s)
with_indices g p (some reg) s = (true, indexed g p reg s)

-- `if (init_fixed_mode(...) < 0)`
unfoldable pub after_fixed : Given → ℕ → ℤ × Trace → Python → Bool × Python
unfolding with_indices
after_fixed g p (negsuc n, t) s = (false, record s { trace = t })
after_fixed g p (pos n, t) s =
    with_indices g p
      (buffer_idx_registry_create g.registry_ok g.indices_ok (u32 (s.store.payloads p).amount))
      (record s { trace = t })

-- `if (init_provided_mode(...) < 0)`
unfoldable pub after_provided : ℤ × Trace → Python → Bool × Python
after_provided (negsuc n, t) s = (false, record s { trace = t })
after_provided (pos n, t) s = (true, record s { trace = t })

module _ (k : Liburing) where
  -- The cases of the `switch` of the two `__enter__`, for the payload at `p`: `none` is a read through
  -- NULL, otherwise whether it goes on.
  unfoldable pub open_fixed : Given → ℕ → Option VectoredBuffer → Python → Option (Bool × Python)
  unfolding init_fixed_mode after_fixed
  open_fixed g p none s = none
  open_fixed g p (some vector) s =
      some (after_fixed g p (init_fixed_mode k vector.iovecs_address vector.nr_vecs s.trace) s)

  unfoldable pub open_provided : ℕ → Option LinearBuffer → Python → Option (Bool × Python)
  unfolding init_provided_mode after_provided
  open_provided p none s = none
  open_provided p (some linear) s = some (
      after_provided
        (init_provided_mode k linear.buffer (to_signed 31 linear.len) (s.store.payloads p).amount
          (s.store.payloads p).bgid s.trace)
        s)

  unfoldable pub open_buf_ring : Given → ℕ → Option LinearBuffer → Python → Option (Bool × Python)
  open_buf_ring g p none s = none
  open_buf_ring g p (some linear) s =
      some (true, set_payload p (λ payload. record payload { buf_ring = g.buf_ring }) s)

  unfoldable pub open_mode : Given → BufferMode → ℕ → Python → Option (Bool × Python)
  unfolding open_fixed open_provided open_buf_ring
  open_mode g fixed p s = open_fixed g p (vector_of (s.store.payloads p)) s
  open_mode g provided p s = open_provided p (linear_of (s.store.payloads p)) s
  open_mode g buf_ring p s = open_buf_ring g p (linear_of (s.store.payloads p)) s
  open_mode g _ p s = some (true, s)

  -- The first case of the `switch` of `BufferModeCtx_exit`; a registry that is NULL is read.
  unfoldable pub close_fixed : Option ℕ → Python → Option Python
  unfolding close_fixed_mode buffer_idx_registry_destroy
  close_fixed none s = none
  close_fixed (some r) s = some (record s {
    trace = (close_fixed_mode k s.trace).1;
    store = record s.store {
      indices = update s.store.indices r (buffer_idx_registry_destroy (s.store.indices r));
    };
  })

  -- The `switch` of `BufferModeCtx_exit`.
  unfoldable pub close_mode : BufferMode → ℕ → Python → Option Python
  unfolding close_fixed close_provided_mode
  close_mode fixed p s = close_fixed (s.store.payloads p).idx_registry s
  close_mode provided p s =
      let payload = s.store.payloads p in
      some (record s { trace = (close_provided_mode k payload.amount payload.bgid s.trace).1 })
  close_mode buf_ring p s = some (set_payload p (λ payload. record payload { buf_ring = none }) s)
  close_mode _ p s = some s

  -- The end of an `__enter__`: a failure of the `switch` resets the variable.
  unfoldable pub settled : Variable → Bool × Python → Option Variable × Python
  unfolding context_var_reset
  settled token (true, s) = (some token, s)
  settled token (false, s) = (none, (context_var_reset true (some token) s).1)

  unfoldable pub enter_mode :
      Given → ℕ → Option Variable × Python → Option (Option Variable × Python)
  unfolding open_mode settled
  enter_mode g p (none, s) = some (none, s)
  enter_mode g p (some token, s) = do
    opened ← open_mode g (s.store.payloads p).mode p s
    some (settled token opened)

  -- The answer of `__enter__`: the token, NULL where it fails, and the state. `none` is a read
  -- through NULL.
  unfoldable pub buffer_mode_enter :
      Given → BufferModeCtx → Python → Option (Option Variable × Python)
  unfolding enter_changed enter_mode
  buffer_mode_enter g self s = enter_mode g self.buffer_payload (
      enter_changed g true
        (λ c. record c { buffer_mode = self.payload; buffer_payload = some self.buffer_payload })
        (context_var_get s.variable) s)

  unfoldable pub after_reset : ℕ → ℤ × Python → Option (Bool × Python)
  unfolding close_mode
  after_reset p (negsuc n, s) = some (false, s)
  after_reset p (pos n, s) = do s' ← close_mode (s.store.payloads p).mode p s; some (true, s')

  -- `BufferModeCtx_exit`; a variable that cannot be reset leaves the buffers with the kernel.
  unfoldable pub buffer_mode_exit : Bool → ℕ → Option Variable → Python → Option (Bool × Python)
  unfolding context_var_reset after_reset
  buffer_mode_exit resets p token s = after_reset p (context_var_reset resets token s)

  -- `ExecutionContextCtx_enter`, with the address of its context: it puts no clone in place, but the
  -- context itself.
  unfoldable pub execution_context_token : Given → ℕ → Python → Option Variable × Python
  unfolding context_var_set
  execution_context_token g context s =
      if g.capsule_made
      then token_and_state (context_var_set g.sets (capsule context) s)
          (record s { store = record s.store { freed = s.store.freed ++ memory context ∷ [] } })
      else (none, s)
    where
      token_and_state : Option (Variable × Python) → Python → Option Variable × Python
      token_and_state none failed = (none, failed)
      token_and_state (some (token, s')) failed = (some token, s')

  unfoldable pub execution_context_enter :
      Given → ℕ → ℕ → Python → Option (Option Variable × Python)
  unfolding execution_context_token enter_mode
  execution_context_enter g context p s = enter_mode g p (execution_context_token g context s)

  -- `ExecutionContextCtx_exit` takes no buffers back.
  unfoldable pub execution_context_exit : Bool → Option Variable → Python → Bool × Python
  unfolding context_var_reset
  execution_context_exit resets token s =
      let (result, s') = context_var_reset resets token s in
      (if is_neg result then false else true, s')
