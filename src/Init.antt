-- ===== src/Init.antt =====
-- src/uringio_init.c: `uringio_module_exec`, which fills the module.
pub mod Filled
use Prim.Native.String.{String}
use puring.Base.{ℕ, Option, none, some, Bool, true, false, List, [], ◌∷◌, ◌++◌, if◌then◌else◌}
use puring.References.{Change, took, gave}
use puring.Enums.{
  Enum, Interpreter, Making, create_resolve_enum, create_statx_flags_enum, create_statx_mask_enum,
  create_buffer_mode_enum, create_stream_strategy_enum, create_transfer_mode_enum,
  create_payload_type_enum,
}

-- The types that the program defines, in the order of `PyType_Ready`.
pub data StaticType : Type 0 where
  socket file buffer_mode_ctx stream_strategy_ctx transfer_mode_ctx execution_context_ctx :
      StaticType

-- What the interpreter answers: the base class of loops, a tuple of it, the type of loops, whether a type
-- can be made ready and an object be added under a name, and what it answers to the functions that make
-- the enumerations, each by its name. `at` is where a type lies.
pub record Python : Type 0 where
  pub asyncio : Option ℕ
  pub base : Option ℕ
  pub bases : Option ℕ
  pub type : Option ℕ
  pub at : StaticType → ℕ
  pub ready : StaticType → Bool
  pub adds : String → Bool
  pub enums : String → Interpreter

-- Whether it succeeds, what the module holds, `UringioLoopType`, and the changes of references.
pub record Exec : Type 0 where
  pub success : Bool
  pub attributes : List (String × ℕ)
  pub loop_type : Option ℕ
  pub changes : List Change

abbrev pub fails : Option ℕ → List Change → Exec
fails loop_type changes = record {
  success = false;
  attributes = [];
  loop_type = loop_type;
  changes = changes;
}

abbrev pub behind : List Change → Exec → Exec
behind before e = record e { changes = before ++ e.changes }

abbrev pub holding : String → ℕ → Exec → Exec
holding name o e = record e { attributes = (name, o) ∷ e.attributes }

module _ (p : Python) (loop_type : ℕ) where
  -- `PyModule_AddObject` takes the reference of an enumeration over, or it is released.
  unfoldable pub add_enum : String → Exec → Option (ℕ × Enum) → Exec
  add_enum name rest none = fails (some loop_type) []
  add_enum name rest (some (result, e)) =
      behind (gave result ∷ [])
        (if p.adds name then holding name result rest else fails (some loop_type) [])

  unfoldable pub add_enums : List (String × Making) → Exec
  unfolding add_enum
  add_enums [] = record {
    success = true;
    attributes = [];
    loop_type = some loop_type;
    changes = [];
  }
  add_enums ((name, m) ∷ enums) = behind m.changes (add_enum name (add_enums enums) m.result)

  -- `PyModule_AddObjectRef`, which gets a reference of its own.
  unfoldable pub add_types : List (String × ℕ) → Exec → Exec
  add_types [] next = next
  add_types ((name, o) ∷ types) next =
      let rest = add_types types next in
      if p.adds name then holding name o rest else fails (some loop_type) []

  unfoldable pub ready_types : List StaticType → Exec → Exec
  ready_types [] next = next
  ready_types (t ∷ types) next =
      let rest = ready_types types next in if p.ready t then rest else fails (some loop_type) []

  abbrev pub all_enums : List (String × Making)
  all_enums =
      ("ResolveFlags", create_resolve_enum (p.enums "ResolveFlags"))
      ∷ ("StatxFlags", create_statx_flags_enum (p.enums "StatxFlags"))
      ∷ ("StatxMask", create_statx_mask_enum (p.enums "StatxMask"))
      ∷ ("BUFFER_MODE", create_buffer_mode_enum (p.enums "BUFFER_MODE"))
      ∷ ("STREAM_STRATEGY", create_stream_strategy_enum (p.enums "STREAM_STRATEGY"))
      ∷ ("TRANSFER_MODE", create_transfer_mode_enum (p.enums "TRANSFER_MODE"))
      ∷ ("PAYLOAD_TYPE", create_payload_type_enum (p.enums "PAYLOAD_TYPE"))
      ∷ []

  abbrev pub all_types : List (String × ℕ)
  all_types =
      ("UringioLoop", loop_type)
      ∷ ("File", p.at file)
      ∷ ("Socket", p.at socket)
      ∷ ("BufferModeCtx", p.at buffer_mode_ctx)
      ∷ ("StreamStrategyCtx", p.at stream_strategy_ctx)
      ∷ ("TransferModeCtx", p.at transfer_mode_ctx)
      ∷ ("ExecutionContextCtx", p.at execution_context_ctx)
      ∷ []

  abbrev pub static_types : List StaticType
  static_types =
      socket ∷ file ∷ buffer_mode_ctx ∷ stream_strategy_ctx ∷ transfer_mode_ctx
      ∷ execution_context_ctx ∷ []

  -- `uringio_module_exec` from the type of loops on.
  unfoldable pub with_type : Exec
  unfolding add_enums add_types ready_types create_resolve_enum create_statx_flags_enum
      create_statx_mask_enum create_buffer_mode_enum create_stream_strategy_enum
      create_transfer_mode_enum create_payload_type_enum
  with_type = ready_types static_types (add_types all_types (add_enums all_enums))

module _ (p : Python) where
  unfoldable pub type_made : ℕ → Option ℕ → Exec
  unfolding with_type
  type_made bases none = fails none (gave bases ∷ [])
  type_made bases (some type) = behind (took type ∷ gave bases ∷ []) (with_type p type)

  unfoldable pub bases_packed : ℕ → Option ℕ → Exec
  unfolding type_made
  bases_packed base none = fails none (gave base ∷ [])
  bases_packed base (some bases) = behind (took bases ∷ gave base ∷ []) (type_made bases p.type)

  unfoldable pub base_found : ℕ → Option ℕ → Exec
  unfolding bases_packed
  base_found asyncio none = fails none (gave asyncio ∷ [])
  base_found asyncio (some base) =
      behind (took base ∷ gave asyncio ∷ []) (bases_packed base p.bases)

  unfoldable pub asyncio_found : Option ℕ → Exec
  unfolding base_found
  asyncio_found none = fails none []
  asyncio_found (some asyncio) = behind (took asyncio ∷ []) (base_found asyncio p.base)

  -- `uringio_module_exec`
  unfoldable pub uringio_module_exec : Exec
  unfolding asyncio_found
  uringio_module_exec = asyncio_found p.asyncio
