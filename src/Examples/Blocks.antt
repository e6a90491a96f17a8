-- ===== src/Examples/Blocks.antt =====
-- Blocks of contexts, dicts of parameters, and payloads.
use puring.Base.{◌≡◌, pos, negsuc, some, none, true, [], arith}
use puring.Buffers.{fixed}
use puring.Registry.{multishot}
use puring.Timer.{TimeoutParams, TimerParams}
use puring.Context.{
  Python, Given, capsule, default_context, get_transfer_mode, get_buffer, stream_strategy_enter,
}
use puring.Context.Nesting.{IsBlock, contexts-IsBlock}
use puring.Dispatch.{zero_copy}
use puring.Context.Switch.{BufferModeCtx, buffer_mode_enter}
use puring.Context.Buffers.{BufferBlock, buffer_mode_enter-BufferBlock}
use puring.PyTimer.{dict, parse_timeout_params, parse_timer_params}
use puring.PyTimer.Parse.{timeout_dict, timer_dict, parse-dict}
use puring.Examples.{ready, store}

abbrev pub python : Python
python = record {
  variable = capsule 900;
  contexts = λ p. default_context;
  store = store;
  trace = [];
}

abbrev pub given : Given
given = record {
  allocated = some 910;
  capsule_made = true;
  sets = true;
  registry_at = 920;
  registry_ok = true;
  indices_ok = true;
  buf_ring = none;
}

contexts-IsBlock_example :
    IsBlock given python
      (some multishot, get_transfer_mode python, get_buffer python)
      (stream_strategy_enter given (record { payload = multishot; token = none }) python)
contexts-IsBlock_example =
    (contexts-IsBlock given python (record { payload = multishot; token = none })
      (record { payload = zero_copy; token = none })).0

-- A block with the registered buffer of the payload at 600.
abbrev block : BufferModeCtx
block = record { payload = fixed; buffer_payload = 600; token = none }

buffer_mode_enter-BufferBlock_example :
    BufferBlock ready given block python (buffer_mode_enter ready given block python)
buffer_mode_enter-BufferBlock_example = buffer_mode_enter-BufferBlock ready given block python

abbrev five_seconds : TimeoutParams
five_seconds = record { sec = pos 5; nsec = pos 7; is_required = true }

abbrev three_times : TimerParams
three_times = record { sec = pos 1; nsec = pos 0; count = negsuc 0; is_multishot = true }

parse-dict_example :
    (parse_timeout_params (some (dict (timeout_dict five_seconds))) ≡ some five_seconds)
    × (parse_timer_params multishot (some (dict (timer_dict three_times))) ≡ some three_times)
parse-dict_example =
    parse-dict five_seconds three_times (omega arith) (omega arith) (omega arith) (omega arith)
      (omega arith)
