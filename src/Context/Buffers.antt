-- ===== src/Context/Buffers.antt =====
-- The blocks in which the kernel has buffers.
use puring.Base.{ℕ, ◌≡◌, refl, sym, ap, ◌∙◌, ℤ, pos, negsuc, Option, none, some, Bool, true, false}
use puring.Uring.{Liburing, Trace}
use puring.Buffers.{
  BufferMode, normal_buf, fixed, provided, buf_ring, buf_no_val, BufferPayload, LinearBuffer,
  VectoredBuffer,
}
use puring.BufferIndex.{FixedBufferIdxRegistry}
use puring.Store.{update}
use puring.Dispatch.{◌>>=◌}
use puring.Context.{Variable, capsule, Python, Given, get_buffer}
use puring.Context.Switch.{
  BufferModeCtx, set_payload, indexed, with_indices, after_fixed, after_provided, open_fixed,
  open_provided, open_buf_ring, open_mode, close_fixed, close_mode, settled, enter_mode,
  buffer_mode_enter, after_reset, buffer_mode_exit,
}
use puring.Context.Nesting.{
  Stops, Entering, failed, changed, enter_changed-Entering, get_buffer-capsule, update_here,
  reset-capsule,
}

-- In a later state, the payload still has the mode and the registry of indices that it had.
abbrev pub Keeps : ℕ → Python → Python → Type 0
Keeps p s later =
    ((later.store.payloads p).mode ≡ (s.store.payloads p).mode)
    × ((later.store.payloads p).idx_registry ≡ (s.store.payloads p).idx_registry)

-- The `switch` of the exit takes the buffers back, in any later state that keeps the payload, and
-- leaves the variable, whatever it holds.
abbrev Closes : Liburing → ℕ → Python → Type 0
Closes k p s =
    (later : Python)
    → Keeps p s later
    → (s' : Python) × (close_mode k (later.store.payloads p).mode p later ≡ some s')
      × (s'.variable ≡ later.variable)

-- What the `switch` does: it reads through NULL, or gives up, or hands the buffers over so that the
-- `switch` of the exit can take them back, and never touches the variable.
data Opened (k : Liburing) (p : ℕ) (s : Python) : Option (Bool × Python) → Type 0 where
  null : Opened k p s none
  given_up : {s₁ : Python} → s₁.variable ≡ s.variable → Opened k p s (some (false, s₁))
  ready :
      {s₁ : Python}
      → s₁.variable ≡ s.variable
      → s₁.contexts ≡ s.contexts
      → Closes k p s₁
      → Opened k p s (some (true, s₁))

payload_here :
    (p : ℕ) (change : BufferPayload → BufferPayload) (s : Python)
    → (set_payload p change s).store.payloads p ≡ change (s.store.payloads p)
payload_here p change s = update_here s.store.payloads p (change (s.store.payloads p))

module _ (k : Liburing) (g : Given) (p : ℕ) where
  Closes-fixed :
      (s : Python) (r : ℕ)
      → (s.store.payloads p).mode ≡ fixed
      → (s.store.payloads p).idx_registry ≡ some r
      → Closes k p s
  unfolding close_mode close_fixed
  Closes-fixed s r mode registry later (same, same_registry) = (
    _,
    ap (λ m. close_mode k m p later) (same ∙ mode)
        ∙ ap (λ r. close_fixed k r later) (same_registry ∙ registry),
    refl,
  )

  Closes-provided : (s : Python) → (s.store.payloads p).mode ≡ provided → Closes k p s
  unfolding close_mode
  Closes-provided s mode later (same, _) = (_, ap (λ m. close_mode k m p later) (same ∙ mode), refl)

  Closes-buf_ring : (s : Python) → (s.store.payloads p).mode ≡ buf_ring → Closes k p s
  unfolding close_mode
  Closes-buf_ring s mode later (same, _) = (_, ap (λ m. close_mode k m p later) (same ∙ mode), refl)

  with_indices-Opened :
      (s s' : Python) (made : Option FixedBufferIdxRegistry)
      → (s'.store.payloads p).mode ≡ fixed
      → s'.variable ≡ s.variable
      → s'.contexts ≡ s.contexts
      → Opened k p s (some (with_indices g p made s'))
  unfolding with_indices
  with_indices-Opened s s' none mode same contexts = given_up same
  with_indices-Opened s s' (some reg) mode same contexts =
      let here = update_here s'.store.payloads p (record (s'.store.payloads p) {
        idx_registry = some g.registry_at;
        vector = none;
        payload_type = puring.Buffers.payload_linear;
      }) in
      ready same contexts (
        Closes-fixed (indexed g p reg s') g.registry_at (ap (λ q. q.mode) here ∙ mode)
          (ap (λ q. q.idx_registry) here))

  after_fixed-Opened :
      (s : Python) (answer : ℤ × Trace)
      → (s.store.payloads p).mode ≡ fixed
      → Opened k p s (some (after_fixed g p answer s))
  unfolding after_fixed
  after_fixed-Opened s (negsuc n, t) mode = given_up refl
  after_fixed-Opened s (pos n, t) mode =
      with_indices-Opened s (record s { trace = t }) _ mode refl refl

  after_provided-Opened :
      (s : Python) (answer : ℤ × Trace)
      → (s.store.payloads p).mode ≡ provided
      → Opened k p s (some (after_provided answer s))
  unfolding after_provided
  after_provided-Opened s (negsuc n, t) mode = given_up refl
  after_provided-Opened s (pos n, t) mode =
      ready refl refl (Closes-provided (record s { trace = t }) mode)

  open_fixed-Opened :
      (s : Python) (vector : Option VectoredBuffer)
      → (s.store.payloads p).mode ≡ fixed
      → Opened k p s (open_fixed k g p vector s)
  unfolding open_fixed
  open_fixed-Opened s none mode = null
  open_fixed-Opened s (some v) mode = after_fixed-Opened s _ mode

  open_provided-Opened :
      (s : Python) (linear : Option LinearBuffer)
      → (s.store.payloads p).mode ≡ provided
      → Opened k p s (open_provided k p linear s)
  unfolding open_provided
  open_provided-Opened s none mode = null
  open_provided-Opened s (some b) mode = after_provided-Opened s _ mode

  open_buf_ring-Opened :
      (s : Python) (linear : Option LinearBuffer)
      → (s.store.payloads p).mode ≡ buf_ring
      → Opened k p s (open_buf_ring k g p linear s)
  unfolding open_buf_ring
  open_buf_ring-Opened s none mode = null
  open_buf_ring-Opened s (some b) mode = ready refl refl (
      Closes-buf_ring (set_payload p (λ payload. record payload { buf_ring = g.buf_ring }) s) (
        ap (λ q. q.mode) (payload_here p (λ payload. record payload { buf_ring = g.buf_ring }) s)
        ∙ mode))

  open_mode-Opened :
      (s : Python) (m : BufferMode)
      → (s.store.payloads p).mode ≡ m
      → Opened k p s (open_mode k g m p s)
  unfolding open_mode close_mode
  open_mode-Opened s fixed mode = open_fixed-Opened s _ mode
  open_mode-Opened s provided mode = open_provided-Opened s _ mode
  open_mode-Opened s buf_ring mode = open_buf_ring-Opened s _ mode
  open_mode-Opened s normal_buf mode =
      ready refl refl (λ later (same, _). (_, ap (λ m. close_mode k m p later) (same ∙ mode), refl))
  open_mode-Opened s buf_no_val mode =
      ready refl refl (λ later (same, _). (_, ap (λ m. close_mode k m p later) (same ∙ mode), refl))

-- The state in which the `switch` of the `__enter__` runs: a clone of the context that holds, with the
-- payload, is in force.
abbrev pub switching : BufferModeCtx → Python → ℕ → ℕ → Python
switching self s current new = record s {
  variable = capsule new;
  contexts = update s.contexts new (record (s.contexts current) {
    buffer_mode = self.payload;
    buffer_payload = some self.buffer_payload;
  });
}

-- What the `switch` of the `__enter__` answers on the clone `new` of the context `current`.
abbrev pub Switches :
    Liburing → Given → BufferModeCtx → Python → ℕ → ℕ → Option (Bool × Python) → Type 0
Switches k g self s current new o =
    (s.variable ≡ capsule current)
    × (g.allocated ≡ some new)
    × (open_mode k g (s.store.payloads self.buffer_payload).mode self.buffer_payload
          (switching self s current new)
        ≡ o)

-- What a block with buffers comes to. The `__enter__` reads through NULL in its `switch`; or it fails,
-- for the reasons of all contexts or in its `switch`, and leaves the variable as it was; or the
-- payload is in force, and wherever the block leaves the variable, and the mode and the indices of the
-- payload, the exit takes the buffers back and puts the context before back in force.
pub data BufferBlock (k : Liburing) (g : Given) (self : BufferModeCtx) (s : Python)
    : Option (Option Variable × Python) → Type 0 where
  reads_null :
      (current new : ℕ) → Switches k g self s current new none → BufferBlock k g self s none
  not_entered :
      {s' : Python}
      → Stops g s
      → s'.variable ≡ s.variable
      → BufferBlock k g self s (some (none, s'))
  not_opened :
      (current new : ℕ) {s' s₁ : Python}
      → Switches k g self s current new (some (false, s₁))
      → s'.variable ≡ s.variable
      → BufferBlock k g self s (some (none, s'))
  block :
      (current new : ℕ) {s' : Python}
      → Switches k g self s current new (some (true, s'))
      → get_buffer s' ≡ some (some self.buffer_payload)
      → ((later : Python)
          → later.variable ≡ s'.variable
          → Keeps self.buffer_payload s' later
          → (s'' : Python) × (buffer_mode_exit k true self.buffer_payload
                (some (capsule current))
                later
              ≡ some (true, s''))
            × (s''.variable ≡ s.variable))
      → BufferBlock k g self s (some (some (capsule current), s'))

module _ (k : Liburing) (g : Given) (self : BufferModeCtx) (s : Python) where
  abbrev p : ℕ
  p = self.buffer_payload

  Opened-BufferBlock :
      (current new : ℕ) {o : Option (Bool × Python)}
      → Switches k g self s current new o
      → Opened k p (switching self s current new) o
      → BufferBlock k g self s (o >>= λ opened. some (settled k (capsule current) opened))
  unfolding settled buffer_mode_exit after_reset
  Opened-BufferBlock current new switch null = reads_null current new switch
  Opened-BufferBlock current new switch (given_up {s₁} same) =
      not_opened current new switch
        (ap (λ r. r.1.variable) (reset-capsule s₁ new (capsule current) same) ∙ sym switch.0)
  Opened-BufferBlock current new switch (ready {s₁} same contexts closes) =
      block current new switch
        (get_buffer-capsule s₁ new same
          ∙ ap (λ c. some (c new).buffer_payload) contexts
          ∙ ap (λ c. some c.buffer_payload) (update_here s.contexts new _))
        λ later variable keeps.
          let (s₂, closed, kept) = closes (record later { variable = capsule current }) keeps in
          (
            s₂,
            ap (after_reset k p) (reset-capsule later new (capsule current) (variable ∙ same))
                ∙ (rw closed refl),
            kept ∙ sym switch.0,
          )

  enter_mode-BufferBlock :
      {r : Option Variable × Python}
      → Entering g
          (λ c. record c { buffer_mode = self.payload; buffer_payload = some self.buffer_payload })
          s
          r
      → BufferBlock k g self s (enter_mode k g p r)
  unfolding enter_mode
  enter_mode-BufferBlock (failed contexts freed why) = not_entered why refl
  enter_mode-BufferBlock (changed current new holds made) =
      Opened-BufferBlock current new (holds, made, refl)
        (open_mode-Opened k g p (switching self s current new) (s.store.payloads p).mode refl)

-- A block with buffers, of any mode, is entered unless no context is in force, Python or `malloc`
-- refuses what it needs, or the `switch` over the mode, on a clone of the context with the payload,
-- gives up, all of which leave the context as it was, or that `switch` reads a buffer through NULL.
-- The methods in the block get the payload, and the exit, where Python accepts the token, finds all
-- that it takes back and puts the context before back in force, whatever the block has done, as long
-- as it leaves the context, and the mode and the registry of indices of the payload.
pub buffer_mode_enter-BufferBlock :
    (k : Liburing) (g : Given) (self : BufferModeCtx) (s : Python)
    → BufferBlock k g self s (buffer_mode_enter k g self s)
unfolding buffer_mode_enter
buffer_mode_enter-BufferBlock k g self s = enter_mode-BufferBlock k g self s (
    enter_changed-Entering g true
      (λ c. record c { buffer_mode = self.payload; buffer_payload = some self.buffer_payload }) s)
