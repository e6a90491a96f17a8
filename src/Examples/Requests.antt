-- ===== src/Examples/Requests.antt =====
-- The registry of requests.
use puring.Base.{ℕ, ◌≡◌, refl, pos, some, [], ◌∷◌, arith}
use puring.Store.{Store}
use puring.Registry.{
  RequestRegistry, filled, cleared, slot_at, release_slot, registry_new, registry_add, registry_get,
  registry_remove, oneshot,
}
use puring.Registry
use puring.Registry.Valid.{IsValid}
use puring.Registry.Add.{registry_add_lem, added-IsValid, added}
use puring.Registry.Remove.{removed, registry_remove_lem}
use puring.Registry.RoundTrip.{registry_remove-registry_add}
use puring.Examples.{requests, requests-IsValid, store, entry}

registry_add_lem_example : (registry_add requests entry store).0 ≡ pos 1
registry_add_lem_example = (registry_add_lem requests entry store 1 refl requests-IsValid).0

-- The registry with the request in slot 1.
abbrev one_request : RequestRegistry
one_request = added requests entry store 1

one_request-IsValid : IsValid one_request
one_request-IsValid = added-IsValid requests entry store 1 refl requests-IsValid

registry_remove_lem_example :
    registry_remove one_request (pos 1) store
    ≡ some (removed one_request 1, release_slot (slot_at one_request 1) store)
registry_remove_lem_example =
    (registry_remove_lem one_request 1 one_request-IsValid (omega arith)
      (Registry.RoundTrip.is_held requests entry store 1 refl requests-IsValid) store).0

registry_remove-registry_add_example :
    (reg' : RequestRegistry) × (s' : Store) × (registry_remove
        (registry_add requests entry store).1
        (registry_add requests entry store).0
        (registry_add requests entry store).2
      ≡ some (reg', s'))
    × (reg'.top ≡ pos 1)
    × (reg'.available_indices ≡ 0 ∷ 1 ∷ [])
    × ((o : ℕ) → s'.refs o ≡ 1)
registry_remove-registry_add_example =
    registry_remove-registry_add requests entry store 1 refl requests-IsValid
