-- ===== src/Context.antt =====
-- src/python_api/execution_context: the context that the methods run in, and the objects that
-- change it for a block (contextvar.c, execution_context.c).
pub mod Switch
pub mod Nesting
pub mod Buffers
pub mod Make
use puring.Base.{
  ℕ, ℤ, pos, negsuc, is_neg, to_signed, Option, none, some, Bool, true, false, List, [], ◌∷◌, ◌++◌,
  if◌then◌else◌,
}
use puring.Uring.{Trace}
use puring.Buffers.{BufferMode, normal_buf, Freed, memory}
use puring.Registry.{StreamStrategy, oneshot}
use puring.Store.{Store, update}
use puring.Dispatch.{TransferMode, normal_transfer, ◌>>=◌}

-- `ExecutionContext`
pub record ExecutionContext : Type 0 where
  pub buffer_mode : BufferMode
  pub stream : StreamStrategy
  pub transfer_mode : TransferMode
  pub buffer_payload : Option ℕ

-- What `execution_context_var` holds: it is NULL itself, it has no value, its value is no capsule, or
-- a capsule of the context at an address.
pub data Variable : Type 0 where
  not_initialized unset other_value : Variable
  capsule : ℕ → Variable

-- The state: the variable, the memory of the contexts, and what the other parts of the program see.
pub record Python : Type 0 where
  pub variable : Variable
  pub contexts : ℕ → ExecutionContext
  pub store : Store
  pub trace : Trace

-- What the interpreter and `malloc` answer.
pub record Given : Type 0 where
  pub allocated : Option ℕ
  pub capsule_made : Bool
  pub sets : Bool
  -- the memory for a registry of buffer indices, and whether its two allocations succeed
  pub registry_at : ℕ
  pub registry_ok : Bool
  pub indices_ok : Bool
  pub buf_ring : Option ℕ

-- `ContextVar_get(NULL)`
unfoldable pub context_var_get : Variable → Option ℕ
context_var_get (capsule p) = some p
context_var_get _ = none

-- The value that a token keeps; a variable that is NULL gives none.
abbrev pub token_of : Variable → Option Variable
token_of not_initialized = none
token_of variable = some variable

abbrev pub set_from : Option Variable → Variable → Python → Option (Variable × Python)
set_from none value s = none
set_from (some before) value s = some (before, record s { variable = value })

-- `ContextVar_set`: NULL, or a token that keeps the value before.
unfoldable pub context_var_set : Bool → Variable → Python → Option (Variable × Python)
context_var_set false value s = none
context_var_set true value s = set_from (token_of s.variable) value s

abbrev pub reset_from : Option Variable → Variable → Python → ℤ × Python
reset_from none before s = (negsuc 0, s)
reset_from (some current) before s = (pos 0, record s { variable = before })

-- `ContextVar_reset` of a token that may be NULL; `resets` says whether Python accepts it.
unfoldable pub context_var_reset : Bool → Option Variable → Python → ℤ × Python
context_var_reset false token s = (negsuc 0, s)
context_var_reset true none s = (negsuc 0, s)
context_var_reset true (some before) s = reset_from (token_of s.variable) before s

-- The context of a new variable.
abbrev pub default_context : ExecutionContext
default_context = record {
  buffer_mode = normal_buf;
  stream = oneshot;
  transfer_mode = normal_transfer;
  buffer_payload = none;
}

-- A variable that exists is used again.
abbrev pub initialized : Variable → Variable
initialized not_initialized = unset
initialized variable = variable

abbrev pub free_context : ℕ → Python → Python
free_context p s = record s { store = record s.store { freed = s.store.freed ++ memory p ∷ [] } }

-- The end of `ContextVar_init`: without a token the capsule goes, and the context with it.
unfoldable pub set_default : ℕ → Option (Variable × Python) → Python → Bool × Python
set_default new none s = (false, free_context new s)
set_default new (some (token, s')) s = (true, s')

-- `ContextVar_init` from the memory of its context on.
unfoldable pub init_context : Given → Option ℕ → Python → Bool × Python
unfolding context_var_set set_default
init_context g none s = (false, s)
init_context g (some new) s =
    let s' = record s { contexts = update s.contexts new default_context } in
    if g.capsule_made
    then set_default new (context_var_set g.sets (capsule new) s') s'
    else (false, free_context new s')

-- `ContextVar_init`, where the variable exists or can be made; it says whether it succeeds.
unfoldable pub context_var_init : Given → Python → Bool × Python
unfolding init_context
context_var_init g s = init_context g g.allocated (record s { variable = initialized s.variable })

-- The getters; `none` is a read through NULL.
unfoldable pub get_buffer : Python → Option (Option ℕ)
get_buffer s = do context ← context_var_get s.variable; some (s.contexts context).buffer_payload

unfoldable pub get_transfer_mode : Python → Option TransferMode
get_transfer_mode s = do
  context ← context_var_get s.variable
  some (s.contexts context).transfer_mode

unfoldable pub get_stream_strategy : Python → Option StreamStrategy
get_stream_strategy s = do context ← context_var_get s.variable; some (s.contexts context).stream

-- The end of an `__enter__`: without a token the capsule goes, and the context with it, which is
-- then freed once more.
unfoldable pub set_new : ℕ → Option (Variable × Python) → Python → Option Variable × Python
set_new new none s = (none, free_context new (free_context new s))
set_new new (some (token, s')) s = (some token, s')

-- From the clone on; `leaks` says whether the clone is kept where no capsule can be made.
unfoldable pub enter_clone :
    Given
    → Bool
    → (ExecutionContext → ExecutionContext)
    → ℕ
    → Option ℕ
    → Python
    → Option Variable × Python
unfolding context_var_set set_new
enter_clone g leaks change current none s = (none, s)
enter_clone g leaks change current (some new) s =
    let s' = record s { contexts = update s.contexts new (change (s.contexts current)) } in
    if g.capsule_made
    then set_new new (context_var_set g.sets (capsule new) s') s'
    else if leaks
    then (none, s')
    else (none, free_context new s')

-- The common part of three of the `__enter__`: the context that holds is cloned, changed and put in
-- its place. It answers the token, NULL where it fails.
unfoldable pub enter_changed :
    Given
    → Bool
    → (ExecutionContext → ExecutionContext)
    → Option ℕ
    → Python
    → Option Variable × Python
unfolding enter_clone
enter_changed g leaks change none s = (none, s)
enter_changed g leaks change (some current) s = enter_clone g leaks change current g.allocated s

-- `StreamStrategyCtx` and `TransferModeCtx`
pub record Ctx (A : Type 0) : Type 0 where
  pub payload : A
  pub token : Option Variable

-- The answer of `__enter__`, NULL or the object: whether it succeeds, the object and the state.
abbrev pub Entered : Type 0 → Type 0
Entered A = Bool × Ctx A × Python

abbrev pub entered : {A : Type 0} → Ctx A → Option Variable × Python → Entered A
entered self (none, s) = (false, self, s)
entered self (some token, s) = (true, record self { token = some token }, s)

unfoldable pub stream_strategy_enter : Given → Ctx StreamStrategy → Python → Entered StreamStrategy
unfolding enter_changed
stream_strategy_enter g self s =
    entered self (
      enter_changed g false (λ c. record c { stream = self.payload }) (context_var_get s.variable)
        s)

unfoldable pub transfer_mode_enter : Given → Ctx TransferMode → Python → Entered TransferMode
unfolding enter_changed
transfer_mode_enter g self s = entered self (
    enter_changed g false (λ c. record c { transfer_mode = self.payload })
      (context_var_get s.variable) s)

-- The two `__exit__` without buffers: whether it succeeds, the object and the state.
unfoldable pub ctx_exit : {A : Type 0} → Bool → Ctx A → Python → Entered A
unfolding context_var_reset
ctx_exit resets self s =
    let (result, s') = context_var_reset resets self.token s in
    (if is_neg result then false else true, record self { token = none }, s')
