-- ===== src/Loop/Due.antt =====
-- The timers that a turn makes ready.
use puring.Base.{
  ℕ, zero, suc, ◌+◌, ◌≤◌, ◌≡◌, refl, sym, ap, ◌∙◌, Option, some, Option-cases, true, false, inl,
  inr, Bool-cases, List, [], ◌∷◌, ◌++◌, length, arith, not, if◌then◌else◌,
}
use mathlib.Core.List.{append-nil, append_assoc}
use puring.Loop.{
  Doubles, PyLoop, Pop, Round, goes_on, stops, after_round, promoted, when_due, round, promote,
  promote_until, promote_scheduled,
}
use puring.System.Safe.{All}

module _ (D : Doubles) (heappop : Pop) (whens : ℕ → Option D.Double) (end_time : D.Double) where
  -- The time of the handle is not at or after the end of the turn: it has come, or is no number.
  abbrev pub IsDue : ℕ → Type 0
  IsDue handle = (t : D.Double) × (whens handle ≡ some t) × (D.at_least t end_time ≡ false)

  -- What a run of the loop does: some handles, all due, have been taken off the heap, one for each
  -- that is ready now, and the `while` has stopped.
  pub record Promoted (scheduled ready scheduled' ready' : List ℕ) : Type 0 where
    pub moved : List ℕ
    pub now_ready : ready' ≡ ready ++ moved
    pub due : All IsDue moved
    pub counted : length scheduled' + length moved ≡ length scheduled
    pub stopped : round D heappop whens end_time scheduled' ready' ≡ stops

  -- `heappop` takes off the root of a heap, its first handle.
  abbrev pub PopsRoot : Type 0
  PopsRoot =
      (handle : ℕ) (handles : List ℕ) (popped : ℕ) (rest : List ℕ)
      → heappop (handle ∷ handles) ≡ some (popped, rest)
      → (popped ≡ handle) × (length rest ≡ length handles)

  -- One round: it stops, or a due handle goes over.
  data Rounds (scheduled ready : List ℕ) : Round → Type 0 where
    over : Rounds scheduled ready stops
    on :
        (handle : ℕ) {scheduled' : List ℕ}
        → IsDue handle
        → suc (length scheduled') ≡ length scheduled
        → Rounds scheduled ready (goes_on scheduled' (ready ++ handle ∷ []))

  module _ (pops : PopsRoot) where
    round-Rounds :
        (scheduled ready : List ℕ)
        → Rounds scheduled ready (round D heappop whens end_time scheduled ready)
    unfolding round when_due promoted
    round-Rounds [] ready = over
    round-Rounds (handle ∷ handles) ready = elim (Option-cases (whens handle)) [
      | inl missing ↦ rw missing over
      | inr (t, time) ↦ elim (Bool-cases (D.at_least t end_time)) [
        | inl late ↦ rw (time, late) over
        | inr due ↦ elim (Option-cases (heappop (handle ∷ handles))) [
          | inl failed ↦ rw (time, due, failed) over
          | inr ((popped, rest), found) ↦
              let (root, shorter) = pops handle handles popped rest found in
              rw (time, due, found) (on popped (rw root (t, time, due)) (ap suc shorter))
        ]
      ]
    ]

    round-nil : (ready : List ℕ) → round D heappop whens end_time [] ready ≡ stops
    unfolding round
    round-nil ready = refl

    by_round :
        (fuel : ℕ) (scheduled ready : List ℕ)
        → length scheduled ≤ suc fuel
        → ((scheduled ready : List ℕ)
            → length scheduled ≤ fuel
            → let (scheduled', ready') = promote D heappop whens end_time fuel scheduled ready in
              Promoted scheduled ready scheduled' ready')
        → (r : Round) → r ≡ round D heappop whens end_time scheduled ready
        → Rounds scheduled ready r
        → let (scheduled', ready') =
            after_round r (promote D heappop whens end_time fuel) (scheduled, ready) in
          Promoted scheduled ready scheduled' ready'
    by_round fuel scheduled ready enough go _ e over = record {
      moved = [];
      now_ready = sym (append-nil ready);
      due = tt;
      counted = omega arith;
      stopped = sym e;
    }
    by_round fuel scheduled ready enough go _ e (on handle {scheduled'} due shorter) =
        let rest = go scheduled' (ready ++ handle ∷ []) (omega arith) in
        record {
          moved = handle ∷ rest.moved;
          now_ready = rest.now_ready ∙ append_assoc ready (handle ∷ []) rest.moved;
          due = (due, rest.due);
          counted = omega (arith, rest.counted);
          stopped = rest.stopped;
        }

    promote-Promoted :
        (fuel : ℕ) (scheduled ready : List ℕ)
        → length scheduled ≤ fuel
        → let (scheduled', ready') = promote D heappop whens end_time fuel scheduled ready in
          Promoted scheduled ready scheduled' ready'
    unfolding promote
    promote-Promoted zero [] ready enough = record {
      moved = [];
      now_ready = sym (append-nil ready);
      due = tt;
      counted = omega arith;
      stopped = round-nil ready;
    }
    promote-Promoted zero (handle ∷ handles) ready enough = absurd (omega arith)
    promote-Promoted (suc fuel) scheduled ready enough =
        by_round fuel scheduled ready enough (promote-Promoted fuel)
          (round D heappop whens end_time scheduled ready) refl (round-Rounds scheduled ready)

module _ (D : Doubles) (heappop : Pop) (loop : PyLoop D) (time resolution : D.Double)
    (readable : loop.readable ≡ true) (now : loop.time ≡ some time)
    (clock : loop.clock_resolution ≡ some resolution) where
  abbrev end_time : D.Double
  end_time = D.plus time resolution

  promote_scheduled-promote :
      promote_scheduled D heappop loop
      ≡ promote D heappop loop.when end_time (length loop.scheduled) loop.scheduled loop.ready
  unfolding promote_scheduled promote_until
  promote_scheduled-promote =
      ap
        (λ b.
          if not b
          then (loop.scheduled, loop.ready)
          else promote_until D heappop loop.time loop.clock_resolution loop)
        readable
      ∙ ap (λ t. promote_until D heappop t loop.clock_resolution loop) now
      ∙ ap (λ r. promote_until D heappop (some time) r loop) clock

  -- With the time of the clock and its resolution at hand, `promote_scheduled` comes to an end: the
  -- handles that it moves behind the ready ones are all due, in that the time of none is at or after
  -- the end, which a NaN is not either, there is one for each that has left the heap, and where the
  -- `while` stops it would stop again: the heap is empty, or the time of its first handle is at or
  -- after the end, or Python raises. `heappop` is taken to take off the root of the heap.
  pub promote_scheduled-Promoted :
      PopsRoot D heappop loop.when end_time
      → let (scheduled', ready') = promote_scheduled D heappop loop in
        Promoted D heappop loop.when end_time loop.scheduled loop.ready scheduled' ready'
  promote_scheduled-Promoted pops = rw promote_scheduled-promote (
      promote-Promoted D heappop loop.when end_time pops (length loop.scheduled) loop.scheduled
        loop.ready (omega arith))
