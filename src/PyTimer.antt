-- ===== src/PyTimer.antt =====
-- src/python_api/timer: the parameters of timers and timeouts that Python passes (_helpers.c), and
-- the timer of a loop (timer.c).
pub mod Parse
use puring.Base.{
  ℕ, ℤ, pos, negsuc, to_signed, to_unsigned, ltb_ℤ, Option, none, some, Bool, true, false, ◌&&◌,
  if◌then◌else◌,
}
use puring.Uring.{Liburing}
use puring.Timer.{TimerParams, TimeoutParams, timer}
use puring.Store.{Store, decref}
use puring.Registry.{StreamStrategy, oneshot, multishot}
use puring.Registry
use puring.Ops.Words.{eqb_ℤ}
use puring.Submit.{
  Failure, bad_arguments, sqe_not_available, submission_failed, unexplained, refused, World, Run,
  Tail, checked_tail, submit,
}
use puring.Submit.Guards.{Situation, on_loop, with_future}

-- A Python object as the parsers see it. A number is one that fits a C `long`.
pub data Value : Type 0 where
  int : ℤ → Value
  bool : Bool → Value
  other : Value

-- An argument: None, a dict, with the values of the keys that are asked for, or something else.
pub data Argument {ℓ} (A : Type ℓ) : Type ℓ where
  python_none : Argument A
  dict : A → Argument A
  no_dict : Argument A

pub record TimeoutDict : Type 0 where
  pub sec : Option Value
  pub nsec : Option Value
  pub is_required : Option Value

pub record TimerDict : Type 0 where
  pub sec : Option Value
  pub nsec : Option Value
  pub count : Option Value
  pub is_multishot : Option Value

-- `obj && PyLong_Check(obj)`, with `(int)PyLong_AsLong(obj)`; a bool is an int.
abbrev pub as_int : Option Value → Option ℤ
as_int (some (int x)) = some (to_signed 31 (to_unsigned 64 x))
as_int (some (bool true)) = some (pos 1)
as_int (some (bool false)) = some (pos 0)
as_int _ = none

-- `obj && PyBool_Check(obj)`, with `PyObject_IsTrue(obj)`
abbrev pub as_bool : Option Value → Option Bool
as_bool (some (bool b)) = some b
as_bool _ = none

unfoldable pub timeout_params : Option ℤ → Option ℤ → Option Bool → Option TimeoutParams
timeout_params (some sec) (some nsec) (some is_required) =
    some (record { sec = sec; nsec = nsec; is_required = is_required })
timeout_params _ _ _ = none

-- `parse_timeout_params`, of an argument that may be NULL and parameters that are 0: `none` is -1.
unfoldable pub parse_timeout_params : Option (Argument TimeoutDict) → Option TimeoutParams
unfolding timeout_params
parse_timeout_params (some (dict d)) =
    timeout_params (as_int d.sec) (as_int d.nsec) (as_bool d.is_required)
parse_timeout_params (some no_dict) = none
parse_timeout_params _ = some (record { sec = pos 0; nsec = pos 0; is_required = false })

-- Only a multishot stream lets a timer repeat.
abbrev pub repeats : StreamStrategy → Option Bool → Bool
repeats multishot (some b) = b
repeats multishot none = false
repeats oneshot b = false

unfoldable pub timer_params :
    StreamStrategy → Option ℤ → Option ℤ → Option ℤ → Option Bool → Option TimerParams
timer_params stream (some sec) (some nsec) (some count) is_multishot =
    some
      (record { sec = sec; nsec = nsec; count = count; is_multishot = repeats stream is_multishot })
timer_params stream _ _ _ _ = none

-- `parse_timer_params`
unfoldable pub parse_timer_params :
    StreamStrategy → Option (Argument TimerDict) → Option TimerParams
unfolding timer_params
parse_timer_params stream (some (dict d)) =
    timer_params stream (as_int d.sec) (as_int d.nsec) (as_int d.count) (as_bool d.is_multishot)
parse_timer_params stream _ = none

-- `if (timer_params_obj && timer_params_obj != Py_None)`
unfoldable pub optional_timer_params :
    StreamStrategy → Option (Argument TimerDict) → Option TimerParams
unfolding parse_timer_params
optional_timer_params stream none =
    some (record { sec = pos 0; nsec = pos 0; count = pos 0; is_multishot = false })
optional_timer_params stream (some python_none) =
    some (record { sec = pos 0; nsec = pos 0; count = pos 0; is_multishot = false })
optional_timer_params stream (some argument) = parse_timer_params stream (some argument)

abbrev pub timer_failure : ℤ → Failure
timer_failure result =
    if eqb_ℤ result (negsuc 0)
    then sqe_not_available
    else if eqb_ℤ result (pos 0)
    then submission_failed
    else unexplained

-- The slot of a timer.
abbrev pub timer_entry : ℕ → Registry.Entry
timer_entry future = record {
  future = future;
  buffer_payload = none;
  stream_strategy = oneshot;
  opcode = Registry.timeout;
  file = none;
  socket = none;
  addr = none;
  msghdr = none;
}

module _ (k : Liburing) (c : Situation) where
  -- From the parameters on.
  unfoldable pub start_timer : Option TimerParams → World → Run
  unfolding with_future timer
  start_timer none w = some (refused bad_arguments, w)
  start_timer (some params) w =
      with_future c.future (λ s. s) w
        λ future.
          submit (checked_tail timer_failure future (decref future)) (timer_entry future)
            (λ i s. some (timer k i (some params), s)) w

  -- `UringioLoop_timer`: the arguments are parsed before the guards on the loop.
  unfoldable pub loop_timer : StreamStrategy → Option (Argument TimerDict) → World → Run
  unfolding on_loop optional_timer_params start_timer
  loop_timer stream argument w =
      if c.parsed
      then on_loop c w (start_timer (optional_timer_params stream argument) w)
      else some (refused bad_arguments, w)
