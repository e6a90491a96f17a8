-- ===== src/Init/Filled.antt =====
-- What the module is filled with.
use Prim.Native.String.{String}
use puring.Base.{
  ℕ, ◌+◌, ◌≡◌, refl, ap, inl, inr, Option, none, some, true, Bool-cases, List, [], ◌∷◌, ◌++◌, map,
  arith, if◌then◌else◌,
}
use puring.References.{Change, gave, one, refs_got, refs_lost, refs_got-append, refs_lost-append}
use puring.Enums.{Enum, Making}
use puring.Enums.Created.{Builds, answered, enums-Created}
use puring.Init.{
  StaticType, Python, Exec, fails, behind, holding, add_enum, add_enums, add_types, ready_types,
  all_enums, all_types, static_types, with_type, type_made, bases_packed, base_found, asyncio_found,
  uringio_module_exec,
}

abbrev pub names : List (String × ℕ) → List String
names = map (λ x. x.0)

-- From the type of loops on: it stays, the other references balance, and where all goes well the module
-- holds these names.
record Adds (loop_type : ℕ) (held : List String) (e : Exec) : Type 0 where
  loop : e.loop_type ≡ some loop_type
  even : (o : ℕ) → refs_got o e.changes ≡ refs_lost o e.changes
  complete : e.success ≡ true → names e.attributes ≡ held

module _ (p : Python) (loop_type : ℕ) where
  fails-Adds : (held : List String) → Adds loop_type held (fails (some loop_type) [])
  unfolding refs_got refs_lost
  fails-Adds held = record { loop = refl; even = λ o. refl; complete = λ h. absurd (cc) }

  holding-Adds :
      (held : List String) (name : String) (o : ℕ) (e : Exec)
      → Adds loop_type held e
      → Adds loop_type (name ∷ held) (holding name o e)
  holding-Adds held name o e a = record {
    loop = a.loop;
    even = a.even;
    complete = λ h. ap (◌∷◌ name) (a.complete h);
  }

  if_adds-Adds :
      (held : List String) (name : String) (o : ℕ) (e : Exec)
      → Adds loop_type held e
      → Adds loop_type
          (name ∷ held)
          (if p.adds name then holding name o e else fails (some loop_type) [])
  if_adds-Adds held name o e a = elim (Bool-cases (p.adds name)) [
    | inl added ↦ rw added (holding-Adds held name o e a)
    | inr refused ↦ rw refused (fails-Adds (name ∷ held))
  ]

  add_enum-Adds :
      (held : List String) (name : String) (e : Exec) (changes : List Change)
      (r : Option (ℕ × Enum))
      → ((o : ℕ) → refs_got o changes ≡ answered o r + refs_lost o changes)
      → Adds loop_type held e
      → Adds loop_type (name ∷ held) (behind changes (add_enum p loop_type name e r))
  unfolding add_enum refs_got refs_lost
  add_enum-Adds held name e changes none balanced a = record {
    loop = refl;
    even = λ o.
        (let got = refs_got-append o changes [] in
          let lost = refs_lost-append o changes [] in let even = balanced o in omega arith);
    complete = λ h. absurd (cc);
  }
  add_enum-Adds held name e changes (some (result, x)) balanced a =
      let rest = if p.adds name then holding name result e else fails (some loop_type) [] in
      let added = if_adds-Adds held name result e a in
      record {
        loop = added.loop;
        even = λ o.
            (let got = refs_got-append o changes (gave result ∷ rest.changes) in
              let lost = refs_lost-append o changes (gave result ∷ rest.changes) in
              let even = balanced o in let even' = added.even o in omega arith);
        complete = added.complete;
      }

  -- Each enumeration that is made has its one reference.
  AllBalanced : List (String × Making) → Type 0
  AllBalanced [] = Unit
  AllBalanced ((name, m) ∷ enums) =
      ((o : ℕ) → refs_got o m.changes ≡ answered o m.result + refs_lost o m.changes)
      × AllBalanced enums

  add_enums-Adds :
      (enums : List (String × Making))
      → AllBalanced enums
      → Adds loop_type (map (λ x. x.0) enums) (add_enums p loop_type enums)
  unfolding add_enums AllBalanced refs_got refs_lost
  add_enums-Adds [] all = record { loop = refl; even = λ o. refl; complete = λ h. refl }
  add_enums-Adds ((name, m) ∷ enums) (balanced, all) =
      add_enum-Adds (map (λ x. x.0) enums) name (add_enums p loop_type enums) m.changes m.result
        balanced (add_enums-Adds enums all)

  add_types-Adds :
      (types : List (String × ℕ)) (held : List String) (e : Exec)
      → Adds loop_type held e
      → Adds loop_type (names types ++ held) (add_types p loop_type types e)
  unfolding add_types
  add_types-Adds [] held e a = a
  add_types-Adds ((name, o) ∷ types) held e a =
      if_adds-Adds (names types ++ held) name o (add_types p loop_type types e)
        (add_types-Adds types held e a)

  ready_types-Adds :
      (types : List StaticType) (held : List String) (e : Exec)
      → Adds loop_type held e
      → Adds loop_type held (ready_types p loop_type types e)
  unfolding ready_types
  ready_types-Adds [] held e a = a
  ready_types-Adds (t ∷ types) held e a = elim (Bool-cases (p.ready t)) [
    | inl added ↦ rw added (ready_types-Adds types held e a)
    | inr refused ↦ rw refused (fails-Adds held)
  ]

  -- From the type of loops on.
  with_type-Adds :
      ((name : String) → Builds (p.enums name))
      → Adds loop_type
          (names (all_types p loop_type) ++ map (λ x. x.0) (all_enums p loop_type))
          (with_type p loop_type)
  unfolding with_type AllBalanced
  with_type-Adds builds = ready_types-Adds (static_types p loop_type) _ _ (
      add_types-Adds (all_types p loop_type) (map (λ x. x.0) (all_enums p loop_type)) _ (
        add_enums-Adds (all_enums p loop_type) (
          (enums-Created (p.enums "ResolveFlags") (builds "ResolveFlags")).0.balanced,
          (
            (enums-Created (p.enums "StatxFlags") (builds "StatxFlags")).1.balanced,
            (
              (enums-Created (p.enums "StatxMask") (builds "StatxMask")).2.balanced,
              (
                (enums-Created (p.enums "BUFFER_MODE") (builds "BUFFER_MODE")).3.balanced,
                (
                  (enums-Created (p.enums "STREAM_STRATEGY") (builds "STREAM_STRATEGY")).4.balanced,
                  (
                    (enums-Created (p.enums "TRANSFER_MODE") (builds "TRANSFER_MODE")).5.balanced,
                    (
                      (enums-Created (p.enums "PAYLOAD_TYPE") (builds "PAYLOAD_TYPE")).6.balanced,
                      tt,
                    ),
                  ),
                ),
              ),
            ),
          ),
        )))

-- The reference that `UringioLoopType` keeps.
abbrev pub kept : ℕ → Option ℕ → ℕ
kept o none = 0
kept o (some loop_type) = one loop_type o

-- What `uringio_module_exec` comes to.
pub record Filled (e : Exec) : Type 0 where
  pub balanced : (o : ℕ) → refs_got o e.changes ≡ kept o e.loop_type + refs_lost o e.changes
  pub complete :
      e.success ≡ true
      → names e.attributes
        ≡ "UringioLoop" ∷ "File" ∷ "Socket" ∷ "BufferModeCtx" ∷ "StreamStrategyCtx"
          ∷ "TransferModeCtx" ∷ "ExecutionContextCtx" ∷ "ResolveFlags" ∷ "StatxFlags" ∷ "StatxMask"
          ∷ "BUFFER_MODE" ∷ "STREAM_STRATEGY" ∷ "TRANSFER_MODE" ∷ "PAYLOAD_TYPE" ∷ []

module _ (p : Python) (builds : (name : String) → Builds (p.enums name)) where
  asyncio_found-Filled :
      (asyncio base bases type : Option ℕ)
      → p.base ≡ base
      → p.bases ≡ bases
      → p.type ≡ type
      → Filled (asyncio_found p asyncio)
  unfolding asyncio_found base_found bases_packed type_made refs_got refs_lost
  asyncio_found-Filled none base bases type b bs t = record {
    balanced = λ o. refl;
    complete = λ h. absurd (cc);
  }
  asyncio_found-Filled (some asyncio) none bases type b bs t =
      rw b (record { balanced = λ o. omega arith; complete = λ h. absurd (cc) })
  asyncio_found-Filled (some asyncio) (some base) none type b bs t =
      rw (b, bs) (record { balanced = λ o. omega arith; complete = λ h. absurd (cc) })
  asyncio_found-Filled (some asyncio) (some base) (some bases) none b bs t =
      rw (b, bs, t) (record { balanced = λ o. omega arith; complete = λ h. absurd (cc) })
  asyncio_found-Filled (some asyncio) (some base) (some bases) (some type) b bs t =
      rw (b, bs, t)
        (let a = with_type-Adds p type builds in
          record {
            balanced = λ o. (let even = a.even o in rw (a.loop) (omega arith));
            complete = a.complete;
          })

  -- Whatever the interpreter answers, `uringio_module_exec` loses every reference as often as it gets it,
  -- but for that of the type of loops, which `UringioLoopType` keeps once it is made; and where it
  -- succeeds, the module has the seven types and the seven enumerations, under these names and in this
  -- order. `Py_BuildValue` is taken to read as many pairs as its format has.
  pub uringio_module_exec-Filled : Filled (uringio_module_exec p)
  unfolding uringio_module_exec
  uringio_module_exec-Filled = asyncio_found-Filled p.asyncio p.base p.bases p.type refl refl refl
