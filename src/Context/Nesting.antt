-- ===== src/Context/Nesting.antt =====
-- The blocks of the contexts: what holds inside of one, and what holds after it.
use puring.Base.{
  ℕ, ◌≡◌, refl, sym, ap, ◌∙◌, ◌⊎◌, inl, inr, Option, none, some, Option-cases, Bool, true, false,
  Bool-cases, List, arith, pos, is_neg, if◌then◌else◌,
}
use puring.Buffers.{Freed}
use puring.Registry.{StreamStrategy}
use puring.Store.{update}
use puring.Dispatch.{TransferMode, ◌>>=◌}
use puring.Context.{
  ExecutionContext, Variable, not_initialized, unset, other_value, capsule, Python, Given, Ctx,
  Entered, entered, context_var_get, context_var_set, context_var_reset, reset_from, token_of,
  set_new, enter_clone, enter_changed, get_buffer, get_transfer_mode, get_stream_strategy,
  stream_strategy_enter, transfer_mode_enter, ctx_exit,
}

get-capsule : (v : Variable) (p : ℕ) → context_var_get v ≡ some p → v ≡ capsule p
unfolding context_var_get
get-capsule not_initialized p e = cc
get-capsule unset p e = cc
get-capsule other_value p e = cc
get-capsule (capsule q) p e = (let same : q ≡ p = cc in ap capsule same)

-- A reset where the variable holds a capsule.
pub reset-capsule :
    (s : Python) (new : ℕ) (before : Variable)
    → s.variable ≡ capsule new
    → context_var_reset true (some before) s ≡ (pos 0, record s { variable = before })
unfolding context_var_reset
reset-capsule s new before holds = ap (λ v. reset_from (token_of v) before s) holds

-- Why a context is not entered.
pub data Stops (g : Given) (s : Python) : Type 0 where
  no_context : context_var_get s.variable ≡ none → Stops g s
  no_memory : g.allocated ≡ none → Stops g s
  no_capsule : g.capsule_made ≡ false → Stops g s
  token_refused : g.sets ≡ false → Stops g s

-- The common part of the `__enter__`: it fails, and the variable stays, or a changed clone of the
-- context that holds is in force.
pub data Entering (g : Given) (change : ExecutionContext → ExecutionContext) (s : Python)
    : Option Variable × Python → Type 0 where
  failed :
      (contexts : ℕ → ExecutionContext) (freed : List Freed)
      → Stops g s
      → Entering g change s
          (none, record s { contexts = contexts; store = record s.store { freed = freed } })
  changed :
      (current new : ℕ)
      → s.variable ≡ capsule current
      → g.allocated ≡ some new
      → Entering g change s (
        some (capsule current),
        record s {
          variable = capsule new;
          contexts = update s.contexts new (change (s.contexts current));
        },
      )

module _ (g : Given) (leaks : Bool) (change : ExecutionContext → ExecutionContext)
    (s : Python) where
  enter_clone-Entering :
      (current : ℕ) (given : Option ℕ)
      → g.allocated ≡ given
      → s.variable ≡ capsule current
      → Entering g change s (enter_clone g leaks change current given s)
  unfolding enter_clone set_new context_var_set
  enter_clone-Entering current none given holds = failed s.contexts s.store.freed (no_memory given)
  enter_clone-Entering current (some new) given holds = elim (Bool-cases g.capsule_made) [
    | inr not_made ↦ elim (Bool-cases leaks) [
      | inl keeps ↦ rw (not_made, keeps) (failed _ s.store.freed (no_capsule refl))
      | inr frees ↦ rw (not_made, frees) (failed _ _ (no_capsule refl))
    ]
    | inl made ↦ elim (Bool-cases g.sets) [
      | inr not_set ↦ rw (made, not_set) (failed _ _ (token_refused refl))
      | inl sets ↦ rw (made, sets, holds) (changed current new refl given)
    ]
  ]

  pub enter_changed-Entering :
      Entering g change s (enter_changed g leaks change (context_var_get s.variable) s)
  unfolding enter_changed
  enter_changed-Entering = elim (Option-cases (context_var_get s.variable)) [
    | inl missing ↦ rw missing (failed s.contexts s.store.freed (no_context missing))
    | inr (current, got) ↦
        rw got (enter_clone-Entering current g.allocated refl (get-capsule s.variable current got))
  ]

pub update_here : {A : Type 0} (f : ℕ → A) (p : ℕ) (v : A) → update f p v p ≡ v
update_here f p v = ground arith

-- A block is not entered for one of the reasons, and leaves the variable as it was. Inside of one that
-- is entered, the getters answer `stream`, `transfer` and `buffer`, and wherever the block leaves the
-- variable, after it the variable is as it was before.
abbrev pub IsBlock :
    {A : Type 0}
    → Given
    → Python
    → Option StreamStrategy × Option TransferMode × Option (Option ℕ)
    → Entered A
    → Type 0
IsBlock g s (stream, transfer, buffer) (entered, self, s') =
    ((entered ≡ false) × Stops g s × (s'.variable ≡ s.variable))
    ⊎ ((entered ≡ true)
        × (get_stream_strategy s' ≡ stream)
        × (get_transfer_mode s' ≡ transfer)
        × (get_buffer s' ≡ buffer)
        × ((later : Python)
            → later.variable ≡ s'.variable
            → ((ctx_exit true self later).0 ≡ true)
              × ((ctx_exit true self later).2.variable ≡ s.variable)))

-- The getters where a context is in force.
module _ (s : Python) (p : ℕ) (holds : s.variable ≡ capsule p) where
  get_stream_strategy-capsule : get_stream_strategy s ≡ some (s.contexts p).stream
  unfolding get_stream_strategy context_var_get
  get_stream_strategy-capsule =
      ap (λ v. context_var_get v >>= λ p. some (s.contexts p).stream) holds

  get_transfer_mode-capsule : get_transfer_mode s ≡ some (s.contexts p).transfer_mode
  unfolding get_transfer_mode context_var_get
  get_transfer_mode-capsule =
      ap (λ v. context_var_get v >>= λ p. some (s.contexts p).transfer_mode) holds

  pub get_buffer-capsule : get_buffer s ≡ some (s.contexts p).buffer_payload
  unfolding get_buffer context_var_get
  get_buffer-capsule = ap (λ v. context_var_get v >>= λ p. some (s.contexts p).buffer_payload) holds

-- Whatever the change is, the block sees it.
Entering-IsBlock :
    {A : Type 0} (g : Given) (change : ExecutionContext → ExecutionContext) (s : Python)
    (self : Ctx A) {r : Option Variable × Python} (stream : Option StreamStrategy)
    (transfer : Option TransferMode) (buffer : Option (Option ℕ))
    → ((p : ℕ)
        → s.variable ≡ capsule p
        → (some (change (s.contexts p)).stream ≡ stream)
          × (some (change (s.contexts p)).transfer_mode ≡ transfer)
          × (some (change (s.contexts p)).buffer_payload ≡ buffer))
    → Entering g change s r
    → IsBlock g s (stream, transfer, buffer) (entered self r)
unfolding ctx_exit
Entering-IsBlock g change s self stream transfer buffer seen (failed contexts freed why) =
    inl (refl, why, refl)
Entering-IsBlock g change s self stream transfer buffer seen (changed current new holds made) =
    let inside : Python = record s {
      variable = capsule new;
      contexts = update s.contexts new (change (s.contexts current));
    } in
    let here = update_here s.contexts new (change (s.contexts current)) in
    let (streams, transfers, buffers) = seen current holds in
    inr (
      refl,
      get_stream_strategy-capsule inside new refl ∙ ap (λ c. some c.stream) here ∙ streams,
      get_transfer_mode-capsule inside new refl ∙ ap (λ c. some c.transfer_mode) here ∙ transfers,
      get_buffer-capsule inside new refl ∙ ap (λ c. some c.buffer_payload) here ∙ buffers,
      λ later variable.
          let e = reset-capsule later new (capsule current) variable in
          (ap (λ r. if is_neg r.0 then false else true) e, ap (λ r. r.1.variable) e ∙ sym holds),
    )

module _ (g : Given) (s : Python) where
  stream_strategy_enter-IsBlock :
      (self : Ctx StreamStrategy)
      → IsBlock g s
          (some self.payload, get_transfer_mode s, get_buffer s)
          (stream_strategy_enter g self s)
  unfolding stream_strategy_enter
  stream_strategy_enter-IsBlock self =
      Entering-IsBlock g _ s self _ _ _
        (λ p holds.
          (refl, sym (get_transfer_mode-capsule s p holds), sym (get_buffer-capsule s p holds)))
        (enter_changed-Entering g false (λ c. record c { stream = self.payload }) s)

  transfer_mode_enter-IsBlock :
      (self : Ctx TransferMode)
      → IsBlock g s
          (get_stream_strategy s, some self.payload, get_buffer s)
          (transfer_mode_enter g self s)
  unfolding transfer_mode_enter
  transfer_mode_enter-IsBlock self =
      Entering-IsBlock g _ s self _ _ _
        (λ p holds.
          (sym (get_stream_strategy-capsule s p holds), refl, sym (get_buffer-capsule s p holds)))
        (enter_changed-Entering g false (λ c. record c { transfer_mode = self.payload }) s)

  -- A `StreamStrategyCtx` that is entered gives the methods in its block its own stream strategy and
  -- the transfer mode and the buffers of the context around it, a `TransferModeCtx` its own transfer
  -- mode and the stream strategy and the buffers of the context around it; and the exit, where
  -- Python accepts the token, puts that context back in force, whatever the block has done, as long
  -- as it leaves its own context in force. Each is entered unless no context is in force, or Python
  -- or `malloc` refuses what it needs, and then leaves the context as it was.
  pub contexts-IsBlock :
      (strategy : Ctx StreamStrategy) (mode : Ctx TransferMode)
      → IsBlock g s
          (some strategy.payload, get_transfer_mode s, get_buffer s)
          (stream_strategy_enter g strategy s)
        × IsBlock g s
            (get_stream_strategy s, some mode.payload, get_buffer s)
            (transfer_mode_enter g mode s)
  contexts-IsBlock strategy mode =
      (stream_strategy_enter-IsBlock strategy, transfer_mode_enter-IsBlock mode)
