-- ===== src/Enums/Created.antt =====
-- The members that the enumerations come to have.
use Prim.Native.String.{String}
use puring.Base.{
  ℕ, ◌+◌, ◌≡◌, refl, sym, ap, ◌∙◌, pos, Option, none, some, List, [], ◌∷◌, take, arith,
}
use puring.References.{took, gave, one, refs_got, refs_lost}
use puring.Enums.{
  Member, is, Enum, Interpreter, Making, called, members_built, class_found, module_found,
  create_enum, resolve_members, statx_flags, statx_mask, create_resolve_enum,
  create_statx_flags_enum, create_statx_mask_enum, create_buffer_mode_enum,
  create_stream_strategy_enum, create_transfer_mode_enum, create_payload_type_enum,
}

-- `Py_BuildValue` reads as many pairs as its format has.
abbrev pub Builds : Interpreter → Type 0
Builds i =
    (format : ℕ) (members : List Member) (dict : ℕ) (held : List Member)
    → i.build_value format members ≡ some (dict, held)
    → held ≡ take format members

-- The reference that is answered.
abbrev pub answered : ℕ → Option (ℕ × Enum) → ℕ
answered o none = 0
answered o (some (result, e)) = one result o

-- NULL, or an enumeration with these members; the references of each object balance, but for the one
-- that is answered.
pub record Created (base name : String) (members : List Member) (m : Making) : Type 0 where
  pub held :
      (result : ℕ) (e : Enum)
      → m.result ≡ some (result, e)
      → e ≡ record { base = base; name = name; members = members }
  pub balanced : (o : ℕ) → refs_got o m.changes ≡ answered o m.result + refs_lost o m.changes

module _ (i : Interpreter) (builds : Builds i) (base name : String) (format : ℕ)
    (members : List Member) where
  called-Created :
      (enum_module class dict : ℕ) (held : List Member) (r : Option ℕ)
      → held ≡ take format members
      → Created base name (take format members) (record {
        result = (called class dict (record { base = base; name = name; members = held }) r).result;
        changes =
            took enum_module
            ∷ took class
            ∷ gave enum_module
            ∷ took dict
            ∷ (called class dict (record { base = base; name = name; members = held }) r).changes;
      })
  unfolding called refs_got refs_lost
  called-Created enum_module class dict held none same = record {
    held = λ result e h. absurd (cc);
    balanced = λ o. omega arith;
  }
  called-Created enum_module class dict held (some made) same = record {
    held = λ result e h.
        (let eq : record { base = base; name = name; members = held } ≡ e = cc in
          sym eq
          ∙ ap (λ (ms : List Member). record { base = base; name = name; members = ms }) same);
    balanced = λ o. omega arith;
  }

  members_built-Created :
      (enum_module class : ℕ) (built : Option (ℕ × List Member))
      → i.build_value format members ≡ built
      → Created base name (take format members) (record {
        result = (members_built i base name class built).result;
        changes =
            took enum_module
            ∷ took class
            ∷ gave enum_module
            ∷ (members_built i base name class built).changes;
      })
  unfolding members_built refs_got refs_lost
  members_built-Created enum_module class none e = record {
    held = λ result e h. absurd (cc);
    balanced = λ o. omega arith;
  }
  members_built-Created enum_module class (some (dict, held)) e =
      called-Created enum_module class dict held (i.call name) (builds format members dict held e)

  class_found-Created :
      (enum_module : ℕ) (class : Option ℕ)
      → Created base name (take format members) (record {
        result = (class_found i base name enum_module format members class).result;
        changes =
            took enum_module ∷ (class_found i base name enum_module format members class).changes;
      })
  unfolding class_found refs_got refs_lost
  class_found-Created enum_module none = record {
    held = λ result e h. absurd (cc);
    balanced = λ o. omega arith;
  }
  class_found-Created enum_module (some class) =
      members_built-Created enum_module class (i.build_value format members) refl

  module_found-Created :
      (enum_module : Option ℕ)
      → Created base name
          (take format members)
          (module_found i base name format members enum_module)
  unfolding module_found refs_got refs_lost
  module_found-Created none = record {
    held = λ result e h. absurd (cc);
    balanced = λ o. omega arith;
  }
  module_found-Created (some enum_module) = class_found-Created enum_module (i.class_of base)

  create_enum-Created :
      Created base name (take format members) (create_enum i base name format members)
  unfolding create_enum
  create_enum-Created = module_found-Created i.enum_module

-- The seven enumerations. Each function answers NULL, or an enumeration of its base and its name with the
-- members that it lists, but `create_statx_flags_enum` leaves out the last of six, and
-- `create_statx_mask_enum` the last two of fourteen; and each loses every reference as often as it gets
-- it, but for the one that it answers. `Py_BuildValue` is taken to read as many pairs as its format has.
pub enums-Created :
    (i : Interpreter)
    → Builds i
    → Created "IntFlag" "ResolveFlags" (resolve_members i) (create_resolve_enum i)
      × Created "IntFlag" "StatxFlags" (take 5 (statx_flags i)) (create_statx_flags_enum i)
      × Created "IntFlag" "StatxMask" (take 12 (statx_mask i)) (create_statx_mask_enum i)
      × Created "IntEnum" "BUFFER_MODE"
          (is "NORMAL" (pos 0)
            ∷ is "FIXED" (pos 1)
            ∷ is "PROVIDED" (pos 2)
            ∷ is "BUF_RING" (pos 3)
            ∷ [])
          (create_buffer_mode_enum i)
      × Created "IntEnum" "STREAM_STRATEGY"
          (is "ONESHOT" (pos 0) ∷ is "MULTISHOT" (pos 1) ∷ [])
          (create_stream_strategy_enum i)
      × Created "IntEnum" "TRANSFER_MODE"
          (is "NORMAL" (pos 0) ∷ is "ZERO_COPY" (pos 1) ∷ [])
          (create_transfer_mode_enum i)
      × Created "IntEnum" "PAYLOAD_TYPE"
          (is "LINEAR" (pos 0) ∷ is "IOVEC" (pos 1) ∷ is "LINEAR_AND_IOVEC" (pos 2) ∷ [])
          (create_payload_type_enum i)
unfolding create_resolve_enum create_statx_flags_enum create_statx_mask_enum create_buffer_mode_enum
    create_stream_strategy_enum create_transfer_mode_enum create_payload_type_enum
enums-Created i builds = (
  create_enum-Created i builds "IntFlag" "ResolveFlags" 6 (resolve_members i),
  create_enum-Created i builds "IntFlag" "StatxFlags" 5 (statx_flags i),
  create_enum-Created i builds "IntFlag" "StatxMask" 12 (statx_mask i),
  create_enum-Created i builds "IntEnum" "BUFFER_MODE" 4 _,
  create_enum-Created i builds "IntEnum" "STREAM_STRATEGY" 2 _,
  create_enum-Created i builds "IntEnum" "TRANSFER_MODE" 2 _,
  create_enum-Created i builds "IntEnum" "PAYLOAD_TYPE" 3 _,
)
