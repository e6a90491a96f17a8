-- ===== src/Enums.antt =====
-- enums.c of src/python_api/ops/files and of src/python_api/execution_context: the enumerations of the
-- module, which all seven functions make in the same way.
pub mod Created
use Prim.Native.String.{String}
use puring.Base.{ℕ, ℤ, pos, Option, none, some, List, [], ◌∷◌, ◌++◌}
use puring.References.{Change, took, gave}
use puring.Buffers.{
  BufferMode, normal_buf, fixed, provided, buf_ring, buf_no_val, PayloadType, payload_linear,
  payload_iovec, payload_linear_and_iovec, payload_type_no_val,
}
use puring.Registry.{StreamStrategy, oneshot, multishot}
use puring.Dispatch.{TransferMode, normal_transfer, zero_copy}

-- A pair of the arguments of `Py_BuildValue`, for which the format has an `s:i`.
pub record Member : Type 0 where
  pub name : String
  pub value : ℤ

abbrev pub is : String → ℤ → Member
is name value = record { name = name; value = value }

-- An enumeration, with the class of which it is made.
pub record Enum : Type 0 where
  pub base : String
  pub name : String
  pub members : List Member

-- What the interpreter answers: the module `enum`, its classes, a dict from as many pairs as the format
-- has and the arguments, with what it holds, and the enumeration from that. NULL is an exception. The
-- headers of the system give the values of their macros.
pub record Interpreter : Type 0 where
  pub enum_module : Option ℕ
  pub class_of : String → Option ℕ
  pub build_value : ℕ → List Member → Option (ℕ × List Member)
  pub call : String → Option ℕ
  pub macro : String → ℤ

-- What a function answers, with the changes of the references that it holds.
pub record Making : Type 0 where
  pub result : Option (ℕ × Enum)
  pub changes : List Change

abbrev pub behind : List Change → Making → Making
behind before m = record { result = m.result; changes = before ++ m.changes }

-- The four steps that each function takes, the last first.
unfoldable pub called : ℕ → ℕ → Enum → Option ℕ → Making
called class dict e none = record { result = none; changes = gave class ∷ gave dict ∷ [] }
called class dict e (some result) = record {
  result = some (result, e);
  changes = took result ∷ gave class ∷ gave dict ∷ [];
}

module _ (i : Interpreter) (base name : String) where
  unfoldable pub members_built : ℕ → Option (ℕ × List Member) → Making
  unfolding called
  members_built class none = record { result = none; changes = gave class ∷ [] }
  members_built class (some (dict, members)) =
      behind (took dict ∷ [])
        (called class dict (record { base = base; name = name; members = members }) (i.call name))

  unfoldable pub class_found : ℕ → ℕ → List Member → Option ℕ → Making
  unfolding members_built
  class_found enum_module format members none = record {
    result = none;
    changes = gave enum_module ∷ [];
  }
  class_found enum_module format members (some class) =
      behind (took class ∷ gave enum_module ∷ [])
        (members_built class (i.build_value format members))

  unfoldable pub module_found : ℕ → List Member → Option ℕ → Making
  unfolding class_found
  module_found format members none = record { result = none; changes = [] }
  module_found format members (some enum_module) =
      behind (took enum_module ∷ []) (class_found enum_module format members (i.class_of base))

  -- The body of each function, with the number of pairs in its format.
  unfoldable pub create_enum : ℕ → List Member → Making
  unfolding module_found
  create_enum format members = module_found format members i.enum_module

-- The values of the enumerations of the program.
abbrev pub mode_value : BufferMode → ℤ
mode_value normal_buf = pos 0
mode_value fixed = pos 1
mode_value provided = pos 2
mode_value buf_ring = pos 3
mode_value buf_no_val = pos 4

abbrev pub stream_value : StreamStrategy → ℤ
stream_value oneshot = pos 0
stream_value multishot = pos 1

abbrev pub transfer_value : TransferMode → ℤ
transfer_value normal_transfer = pos 0
transfer_value zero_copy = pos 1

abbrev pub payload_value : PayloadType → ℤ
payload_value payload_linear = pos 0
payload_value payload_iovec = pos 1
payload_value payload_linear_and_iovec = pos 2
payload_value payload_type_no_val = pos 3

-- The arguments of the seven calls.
module _ (i : Interpreter) where
  abbrev pub resolve_members : List Member
  resolve_members =
      is "NO_XDEV" (i.macro "RESOLVE_NO_XDEV")
      ∷ is "NO_MAGICLINKS" (i.macro "RESOLVE_NO_MAGICLINKS")
      ∷ is "NO_SYMLINKS" (i.macro "RESOLVE_NO_SYMLINKS")
      ∷ is "BENEATH" (i.macro "RESOLVE_BENEATH")
      ∷ is "IN_ROOT" (i.macro "RESOLVE_IN_ROOT")
      ∷ is "CACHED" (i.macro "RESOLVE_CACHED")
      ∷ []

  abbrev pub statx_flags : List Member
  statx_flags =
      is "EMPTY_PATH" (i.macro "AT_EMPTY_PATH")
      ∷ is "SYMLINK_NOFOLLOW" (i.macro "AT_SYMLINK_NOFOLLOW")
      ∷ is "NO_AUTOMOUNT" (i.macro "AT_NO_AUTOMOUNT")
      ∷ is "STATX_SYNC_AS_STAT" (i.macro "AT_STATX_SYNC_AS_STAT")
      ∷ is "STATX_FORCE_SYNC" (i.macro "AT_STATX_FORCE_SYNC")
      ∷ is "STATX_DONT_SYNC" (i.macro "AT_STATX_DONT_SYNC")
      ∷ []

  abbrev pub statx_mask : List Member
  statx_mask =
      is "TYPE" (i.macro "STATX_TYPE")
      ∷ is "MODE" (i.macro "STATX_MODE")
      ∷ is "NLINK" (i.macro "STATX_NLINK")
      ∷ is "UID" (i.macro "STATX_UID")
      ∷ is "GID" (i.macro "STATX_GID")
      ∷ is "ATIME" (i.macro "STATX_ATIME")
      ∷ is "MTIME" (i.macro "STATX_MTIME")
      ∷ is "CTIME" (i.macro "STATX_CTIME")
      ∷ is "INO" (i.macro "STATX_INO")
      ∷ is "SIZE" (i.macro "STATX_SIZE")
      ∷ is "BLOCKS" (i.macro "STATX_BLOCKS")
      ∷ is "BASIC_STATS" (i.macro "STATX_BASIC_STATS")
      ∷ is "BTIME" (i.macro "STATX_BTIME")
      ∷ is "ALL" (i.macro "STATX_ALL")
      ∷ []

  unfoldable pub create_resolve_enum : Making
  unfolding create_enum
  create_resolve_enum = create_enum i "IntFlag" "ResolveFlags" 6 resolve_members

  -- The format has one pair less than there are arguments.
  unfoldable pub create_statx_flags_enum : Making
  unfolding create_enum
  create_statx_flags_enum = create_enum i "IntFlag" "StatxFlags" 5 statx_flags

  -- The format has two pairs less.
  unfoldable pub create_statx_mask_enum : Making
  unfolding create_enum
  create_statx_mask_enum = create_enum i "IntFlag" "StatxMask" 12 statx_mask

  unfoldable pub create_buffer_mode_enum : Making
  unfolding create_enum
  create_buffer_mode_enum = create_enum i "IntEnum" "BUFFER_MODE" 4 (
      is "NORMAL" (mode_value normal_buf)
      ∷ is "FIXED" (mode_value fixed)
      ∷ is "PROVIDED" (mode_value provided)
      ∷ is "BUF_RING" (mode_value buf_ring)
      ∷ [])

  unfoldable pub create_stream_strategy_enum : Making
  unfolding create_enum
  create_stream_strategy_enum =
      create_enum i "IntEnum" "STREAM_STRATEGY" 2
        (is "ONESHOT" (stream_value oneshot) ∷ is "MULTISHOT" (stream_value multishot) ∷ [])

  unfoldable pub create_transfer_mode_enum : Making
  unfolding create_enum
  create_transfer_mode_enum = create_enum i "IntEnum" "TRANSFER_MODE" 2 (
      is "NORMAL" (transfer_value normal_transfer) ∷ is "ZERO_COPY" (transfer_value zero_copy) ∷ [])

  unfoldable pub create_payload_type_enum : Making
  unfolding create_enum
  create_payload_type_enum = create_enum i "IntEnum" "PAYLOAD_TYPE" 3 (
      is "LINEAR" (payload_value payload_linear)
      ∷ is "IOVEC" (payload_value payload_iovec)
      ∷ is "LINEAR_AND_IOVEC" (payload_value payload_linear_and_iovec)
      ∷ [])
