-- ===== src/Examples/Modules.antt =====
-- The filling of the module, by an interpreter that has all that is asked for.
use puring.Base.{ℕ, pos, some, true, [], ◌∷◌, take}
use puring.Enums.{
  is, Interpreter, resolve_members, statx_flags, statx_mask, create_resolve_enum,
  create_statx_flags_enum, create_statx_mask_enum, create_buffer_mode_enum,
  create_stream_strategy_enum, create_transfer_mode_enum, create_payload_type_enum,
}
use puring.Enums.Created.{Builds, Created, enums-Created}
use puring.Init.{
  StaticType, socket, file, buffer_mode_ctx, stream_strategy_ctx, transfer_mode_ctx,
  execution_context_ctx, Python, uringio_module_exec,
}
use puring.Init.Filled.{Filled, uringio_module_exec-Filled}

abbrev interpreter : Interpreter
interpreter = record {
  enum_module = some 1;
  class_of = λ name. some 2;
  build_value = λ format members. some (3, take format members);
  call = λ name. some 4;
  macro = λ name. pos 64;
}

interpreter-Builds : Builds interpreter
interpreter-Builds format members dict held e = cc

enums-Created_example :
    Created "IntFlag" "ResolveFlags" (resolve_members interpreter) (create_resolve_enum interpreter)
    × Created "IntFlag" "StatxFlags"
        (take 5 (statx_flags interpreter))
        (create_statx_flags_enum interpreter)
    × Created "IntFlag" "StatxMask"
        (take 12 (statx_mask interpreter))
        (create_statx_mask_enum interpreter)
    × Created "IntEnum" "BUFFER_MODE"
        (is "NORMAL" (pos 0)
          ∷ is "FIXED" (pos 1)
          ∷ is "PROVIDED" (pos 2)
          ∷ is "BUF_RING" (pos 3)
          ∷ [])
        (create_buffer_mode_enum interpreter)
    × Created "IntEnum" "STREAM_STRATEGY"
        (is "ONESHOT" (pos 0) ∷ is "MULTISHOT" (pos 1) ∷ [])
        (create_stream_strategy_enum interpreter)
    × Created "IntEnum" "TRANSFER_MODE"
        (is "NORMAL" (pos 0) ∷ is "ZERO_COPY" (pos 1) ∷ [])
        (create_transfer_mode_enum interpreter)
    × Created "IntEnum" "PAYLOAD_TYPE"
        (is "LINEAR" (pos 0) ∷ is "IOVEC" (pos 1) ∷ is "LINEAR_AND_IOVEC" (pos 2) ∷ [])
        (create_payload_type_enum interpreter)
enums-Created_example = enums-Created interpreter interpreter-Builds

abbrev lies_at : StaticType → ℕ
lies_at socket = 20
lies_at file = 21
lies_at buffer_mode_ctx = 22
lies_at stream_strategy_ctx = 23
lies_at transfer_mode_ctx = 24
lies_at execution_context_ctx = 25

abbrev interpreted : Python
interpreted = record {
  asyncio = some 10;
  base = some 11;
  bases = some 12;
  type = some 13;
  at = lies_at;
  ready = λ t. true;
  adds = λ name. true;
  enums = λ name. interpreter;
}

uringio_module_exec-Filled_example : Filled (uringio_module_exec interpreted)
uringio_module_exec-Filled_example =
    uringio_module_exec-Filled interpreted (λ name. interpreter-Builds)
