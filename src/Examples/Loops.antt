-- ===== src/Examples/Loops.antt =====
-- Turns of a loop on whole seconds, a shutdown, and a ring of buffers.
use puring.Base.{
  ℕ, ◌+◌, ◌-◌, ◌*◌, ◌≤◌, ◌≡◌, ◌≢◌, refl, sym, ap, ltb, pos, ◌==◌, some, none, true, false, [], ◌∷◌,
  length, to_unsigned_of_lt, arith, if◌then◌else◌, not,
}
use puring.Loop.{Doubles, PyLoop, Pop, compute_timeout, promote_scheduled}
use puring.Loop.Timeout.{Laws, IsWait, compute_timeout-IsWait}
use puring.Loop.Due.{Promoted, promote_scheduled-Promoted}
use puring.Loop.Shutdown.{graceful_shutdown}
use puring.Loop.Shutdown.Flights.{graceful_shutdown-aborts}
use puring.Modes.{init_buf_ring_mode}
use puring.Modes.BufRing.{nth_added, init_buf_ring_mode-disjoint}
use puring.Examples.{ready, completion, requests-IsValid, world}

-- Times of whole seconds.
abbrev pub seconds : Doubles
seconds = record {
  Double = ℕ;
  minus = λ a b. a - b;
  plus = λ a b. a + b;
  less = ltb;
  at_least = λ a b. not (ltb a b);
  nought = 0;
  day = 86400;
  truncate = pos;
  nsec = λ x. pos (x * 1000000000);
}

seconds-Laws : Laws seconds
seconds-Laws = record {
  IsNumber = λ x. 0 ≤ x;
  nought_number = omega arith;
  day_number = omega arith;
  nought_not_less = refl;
  nought_day = refl;
  day_nought = refl;
  day_not_less = refl;
  asymmetric = λ x h. ground arith;
  truncates = λ x number low high. (x, ground arith, refl);
  cancels = λ x number low high. (let same : x - x ≡ 0 = omega arith in rw same refl);
}

-- At 100, with timers at 100 and 160.
abbrev pub turn : PyLoop seconds
turn = record {
  ready = [];
  scheduled = 1 ∷ 2 ∷ [];
  stopping = false;
  readable = true;
  time = some 100;
  clock_resolution = some 1;
  when = λ handle. if handle == 1 then some 100 else some 160;
  cancelled = λ handle. some false;
}

abbrev pub pop : Pop
pop [] = none
pop (handle ∷ handles) = some (handle, handles)

compute_timeout-IsWait_example : IsWait (compute_timeout seconds turn)
unfolding seconds-Laws
compute_timeout-IsWait_example =
    compute_timeout-IsWait seconds seconds-Laws turn (λ handle w t h e. omega arith)

promote_scheduled-Promoted_example :
    Promoted seconds pop turn.when 101
      (1 ∷ 2 ∷ [])
      []
      (promote_scheduled seconds pop turn).0
      (promote_scheduled seconds pop turn).1
promote_scheduled-Promoted_example =
    promote_scheduled-Promoted seconds pop turn 100 1 refl refl refl
      (λ handle handles popped rest found. (cc, let same : rest ≡ handles = cc in ap length same))

graceful_shutdown-aborts_example :
    graceful_shutdown ready (λ cqe. true) (completion (pos 0) ∷ []) world ≡ none
graceful_shutdown-aborts_example =
    graceful_shutdown-aborts ready (λ cqe. true) world (completion (pos 0)) [] 1 requests-IsValid
      (omega arith) refl (sym (to_unsigned_of_lt 1 (omega arith)))

-- Four buffers of 16 bytes at 1000, of which the second is 16 bytes on.
init_buf_ring_mode-disjoint_example :
    (length (init_buf_ring_mode (some 5) 1000 (pos 16) (pos 4)).1 ≡ 4)
    × ((nth_added (init_buf_ring_mode (some 5) 1000 (pos 16) (pos 4)).1 1).bid
        ≢ (nth_added (init_buf_ring_mode (some 5) 1000 (pos 16) (pos 4)).1 2).bid)
    × ((a b : ℕ) × ((nth_added (init_buf_ring_mode (some 5) 1000 (pos 16) (pos 4)).1 1).addr
          ≡ pos a)
        × ((nth_added (init_buf_ring_mode (some 5) 1000 (pos 16) (pos 4)).1 2).addr ≡ pos b)
        × (a + (nth_added (init_buf_ring_mode (some 5) 1000 (pos 16) (pos 4)).1 1).len ≤ b)
        × (b + (nth_added (init_buf_ring_mode (some 5) 1000 (pos 16) (pos 4)).1 2).len ≤ 1064))
init_buf_ring_mode-disjoint_example =
    init_buf_ring_mode-disjoint 5 1000 16 4 (omega arith) (omega arith) 1 2 (omega arith)
      (omega arith)
