-- ===== src/Loop.antt =====
-- src/python_api/loop: one turn of the event loop (helpers.c, loop.c), and its end (shutdown.c).
pub mod Due
pub mod Drain
pub mod Timeout
pub mod Shutdown
pub mod Object
pub mod Turn
use puring.Base.{
  ℕ, zero, suc, ◌+◌, ◌≡◌, ◌<◌, ltb, ℤ, pos, Option, none, some, Bool, true, false, not, ◌||◌, List,
  [], ◌∷◌, ◌++◌, length, if◌then◌else◌,
}

-- C's `double`, for the times that Python hands over: `x - y`, `x < y`, the constants, and the
-- conversions to `long`; `nsec x` is `(long)(x * 1e9)`.
pub record Doubles : Type 1 where
  pub Double : Type 0
  pub minus : Double → Double → Double
  pub plus : Double → Double → Double
  pub less : Double → Double → Bool
  -- `x >= y`, which is not the negation of `x < y` where one is no number
  pub at_least : Double → Double → Bool
  pub nought : Double
  pub day : Double
  pub truncate : Double → ℤ
  pub nsec : Double → ℤ

-- `86400`
abbrev pub day_seconds : ℕ
day_seconds = 86400

-- The attributes of the Python loop that the helpers read; `none` is an exception. A handle is named
-- by its address.
pub record PyLoop (D : Doubles) : Type 0 where
  pub ready : List ℕ
  pub scheduled : List ℕ
  pub stopping : Bool
  -- whether the attributes of the loop can be read
  pub readable : Bool
  pub time : Option D.Double
  pub clock_resolution : Option D.Double
  pub when : ℕ → Option D.Double
  pub cancelled : ℕ → Option Bool

abbrev pub is_empty {ℓ} : {A : Type ℓ} → List A → Bool
is_empty [] = true
is_empty (x ∷ xs) = false

-- `heapq.heappop`: NULL, or the handle with the rest of the heap.
abbrev pub Pop : Type 0
Pop = List ℕ → Option (ℕ × List ℕ)

-- What the `while` of `promote_scheduled` does with the heap and the ready handles: it goes on, or
-- it stops where it is.
pub data Round : Type 0 where
  goes_on : (scheduled ready : List ℕ) → Round
  stops : Round

unfoldable pub promoted : Option (ℕ × List ℕ) → List ℕ → Round
promoted none ready = stops
promoted (some (popped, scheduled)) ready = goes_on scheduled (ready ++ popped ∷ [])

-- A run of the `while` that stops after this round, or the run after it.
abbrev pub after_round :
    Round → (List ℕ → List ℕ → List ℕ × List ℕ) → List ℕ × List ℕ → List ℕ × List ℕ
after_round stops rest here = here
after_round (goes_on scheduled ready) rest here = rest scheduled ready

module _ (D : Doubles) where
  -- `if (delay < 0) ... if (delay > 86400) ...`
  unfoldable pub clamp : D.Double → D.Double
  clamp delay =
      let raised = if D.less delay D.nought then D.nought else delay in
      if D.less D.day raised then D.day else raised

  -- The part of `compute_timeout` on the first timer, and `{tv_sec, tv_nsec}` of its result.
  unfoldable pub first_timeout : Option D.Double → Option D.Double → ℤ × ℤ
  unfolding clamp
  first_timeout (some when) (some time) =
      let delay = clamp (D.minus when time) in (D.truncate delay, D.nsec (D.minus delay delay))
  first_timeout _ _ = (pos 0, pos 0)

  unfoldable pub scheduled_timeout : PyLoop D → List ℕ → ℤ × ℤ
  unfolding first_timeout
  scheduled_timeout loop [] = (pos day_seconds, pos 0)
  scheduled_timeout loop (handle ∷ handles) = first_timeout (loop.when handle) loop.time

  unfoldable pub compute_timeout : PyLoop D → ℤ × ℤ
  unfolding scheduled_timeout
  compute_timeout loop =
      if not loop.readable
      then (pos 0, pos 0)
      else if not (is_empty loop.ready) || loop.stopping
      then (pos 0, pos 0)
      else scheduled_timeout loop loop.scheduled

  unfoldable pub when_due : Pop → D.Double → Option D.Double → List ℕ → List ℕ → Round
  unfolding promoted
  when_due heappop end_time none scheduled ready = stops
  when_due heappop end_time (some when) scheduled ready =
      if D.at_least when end_time then stops else promoted (heappop scheduled) ready

  unfoldable pub round : Pop → (ℕ → Option D.Double) → D.Double → List ℕ → List ℕ → Round
  unfolding when_due
  round heappop whens end_time [] ready = stops
  round heappop whens end_time (handle ∷ handles) ready =
      when_due heappop end_time (whens handle) (handle ∷ handles) ready

  -- The `while`, on fuel.
  unfoldable pub promote :
      Pop → (ℕ → Option D.Double) → D.Double → ℕ → List ℕ → List ℕ → List ℕ × List ℕ
  unfolding round
  promote heappop whens end_time zero scheduled ready = (scheduled, ready)
  promote heappop whens end_time (suc fuel) scheduled ready =
      after_round (round heappop whens end_time scheduled ready)
        (λ scheduled' ready'. promote heappop whens end_time fuel scheduled' ready')
        (scheduled, ready)

  unfoldable pub promote_until :
      Pop → Option D.Double → Option D.Double → PyLoop D → List ℕ × List ℕ
  unfolding promote
  promote_until heappop (some time) (some resolution) loop =
      promote heappop loop.when (D.plus time resolution) (length loop.scheduled) loop.scheduled
        loop.ready
  promote_until heappop _ _ loop = (loop.scheduled, loop.ready)

  -- `promote_scheduled`: the heap and the ready handles afterwards. The heap has as many handles as
  -- there can be rounds.
  unfoldable pub promote_scheduled : Pop → PyLoop D → List ℕ × List ℕ
  unfolding promote_until
  promote_scheduled heappop loop =
      if not loop.readable
      then (loop.scheduled, loop.ready)
      else promote_until heappop loop.time loop.clock_resolution loop

-- What running a handle does: to the rest of the interpreter, of type `E`, and the handles that it
-- appends to `_ready`.
pub record Callbacks (E : Type 0) : Type 0 where
  pub is_cancelled : E → ℕ → Option Bool
  pub run : ℕ → E → E × List ℕ

module _ {E : Type 0} (c : Callbacks E) where
  -- One handle, `none` where it has no `_cancelled`: the state, the handles appended, those run.
  unfoldable pub run_unless : Option Bool → ℕ → E → E × List ℕ × List ℕ
  run_unless (some false) handle e = let (e', new) = c.run handle e in (e', new, handle ∷ [])
  run_unless _ handle e = (e, [], [])

  -- The loop of `drain_ready`, for `ntodo` handles: the state, `_ready`, and the handles run.
  unfoldable pub drain : ℕ → List ℕ → E → E × List ℕ × List ℕ
  unfolding run_unless
  drain zero ready e = (e, ready, [])
  drain (suc ntodo) [] e = (e, [], [])
  drain (suc ntodo) (handle ∷ ready) e =
      let (e₁, new, ran) = run_unless (c.is_cancelled e handle) handle e in
      let (e₂, ready', later) = drain ntodo (ready ++ new) e₁ in (e₂, ready', ran ++ later)

  unfoldable pub drain_ready : List ℕ → E → E × List ℕ × List ℕ
  unfolding drain
  drain_ready ready e = drain (length ready) ready e
