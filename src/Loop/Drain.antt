-- ===== src/Loop/Drain.antt =====
-- The handles that a turn runs.
use puring.Base.{ℕ, ◌≡◌, sym, ap, ◌∙◌, List, [], ◌∷◌, ◌++◌, length}
use mathlib.Core.List.{append-nil, append_assoc}
use puring.Loop.{Callbacks, run_unless, drain, drain_ready}

module _ {E : Type 0} (c : Callbacks E) where
  -- The handles, each once and in order: the state, the handles appended meanwhile, those run.
  abbrev pub in_turn : List ℕ → E → E × List ℕ × List ℕ
  in_turn [] e = (e, [], [])
  in_turn (handle ∷ handles) e =
      let (e₁, new, ran) = run_unless c (c.is_cancelled e handle) handle e in
      let (e₂, newer, later) = in_turn handles e₁ in (e₂, new ++ newer, ran ++ later)

  drain-in_turn :
      (handles waiting : List ℕ) (e : E)
      → drain c (length handles) (handles ++ waiting) e
        ≡ ((in_turn handles e).0, waiting ++ (in_turn handles e).1, (in_turn handles e).2)
  unfolding drain
  drain-in_turn [] waiting e = ap (λ ready. (e, ready, [])) (sym (append-nil waiting))
  drain-in_turn (handle ∷ handles) waiting e =
      let (e₁, new, ran) = run_unless c (c.is_cancelled e handle) handle e in
      let (e₂, newer, later) = in_turn handles e₁ in
      ap (λ x. (x.0, x.1, ran ++ x.2))
        (ap (λ ready. drain c (length handles) ready e₁) (append_assoc handles waiting new)
          ∙ drain-in_turn handles (waiting ++ new) e₁)
      ∙ ap (λ ready. (e₂, ready, ran ++ later)) (append_assoc waiting new newer)

  -- `drain_ready` takes every handle that is ready at its start once, in order, and runs those that
  -- are not cancelled when their turn comes; what they append to `_ready` is left for the next
  -- turn, in order.
  pub drain_ready-in_turn : (ready : List ℕ) (e : E) → drain_ready c ready e ≡ in_turn ready e
  unfolding drain_ready
  drain_ready-in_turn ready e =
      ap (λ handles. drain c (length ready) handles e) (sym (append-nil ready))
      ∙ drain-in_turn ready [] e
