-- ===== src/Reader/Step.antt =====
-- `on_uring_ready`: one turn of its loop, and the loop over the completions that are there.
use puring.Base.{
  ℕ, suc, ◌==◌, ℤ, pos, negsuc, is_neg, to_signed, Option, none, some, Bool, true, false, not, ◌&&◌,
  List, [], ◌∷◌, ◌++◌, set, if◌then◌else◌,
}
use puring.Uring.{Liburing, Trace, Prep, get_sqe, prepped, set_data, cqe_seen, wakeup_fd_tag}
use puring.Store.{Store, decref}
use puring.Registry.{
  RequestRegistry, RequestSlot, Opcode, timeout, slot_at, registry_get, registry_remove,
}
use puring.Ops.Words.{eqb_ℤ}
use puring.Submit.{World}
use puring.Dispatch.{◌>>=◌}
use puring.Reader.{
  Cqe, Value, the_file, the_socket, Event, set_result, set_exception, print_error, Host, Done,
  Completion, completed, skipped,
}
use puring.Reader.Complete.{complete}

-- The state of the loop, with the events in the order of their happening.
pub record Loop : Type 0 where
  pub world : World
  pub events : List Event

-- `(int)(uintptr_t)cqe->user_data`
abbrev pub index_of : Cqe → ℤ
index_of cqe = to_signed 31 cqe.user_data

abbrev pub is_timeout : Opcode → Bool
is_timeout timeout = true
is_timeout _ = false

-- `-res`, for a negative `res`.
abbrev pub errno_of : ℤ → ℤ
errno_of (pos n) = pos n
errno_of (negsuc n) = pos (suc n)

-- `io_uring_cqe_seen`
abbrev pub seen : Cqe → Loop → Loop
seen cqe st = record st {
  world = record st.world { trace = cqe_seen cqe.user_data ∷ st.world.trace };
}

-- `Py_DECREF(result)`; the other results are not shared.
abbrev pub drop_value : Value → Store → Store
drop_value (the_file f) s = decref f s
drop_value (the_socket o) s = decref o s
drop_value _ s = s

-- What the `switch` does to the slot.
abbrev pub slot_after : Done → RequestSlot → RequestSlot
slot_after d slot = record slot {
  buffer_payload = if d.clears_payload then none else slot.buffer_payload;
  addr = if d.clears_addr then none else slot.addr;
}

abbrev pub set_slot : RequestRegistry → ℕ → RequestSlot → RequestRegistry
set_slot reg i slot = record reg { slots = set reg.slots i slot }

-- The call of `set_result`, where there is a result.
abbrev pub result_events : ℕ → Option Value → List Event
result_events future none = []
result_events future (some value) = set_result future value ∷ []

abbrev pub drop_result : Option Value → Store → Store
drop_result none s = s
drop_result (some value) s = drop_value value s

-- The state at the end of a turn.
abbrev pub finished : Cqe → ℕ → List Event → Done → Loop → RequestRegistry × Store → Loop
finished cqe future before d st (registry, store) = seen cqe (record {
  world = record { registry = registry; store = store; trace = d.trace };
  events = st.events ++ before ++ d.printed ++ result_events future d.value;
})

unfoldable pub ended :
    Cqe → ℕ → List Event → Done → Loop → Option (RequestRegistry × Store) → Option Loop
ended cqe future before d st none = none
ended cqe future before d st (some x) = some (finished cqe future before d st x)

-- The lines after the `switch`, up to the end of the turn.
unfoldable pub finish : Cqe → ℕ → ℕ → List Event → Done → Loop → Option Loop
unfolding ended
finish cqe i future before d st = ended cqe future before d st (
    registry_remove (set_slot st.world.registry i (slot_after d (slot_at st.world.registry i)))
      (pos i) (drop_result d.value d.store))

unfoldable pub settle : Cqe → ℕ → ℕ → Option Completion → Loop → Option Loop
unfolding finish
settle cqe i future none st = none
settle cqe i future (some (skipped s printed)) st =
    some
      (seen cqe (record { world = record st.world { store = s }; events = st.events ++ printed }))
settle cqe i future (some (completed d)) st = finish cqe i future [] d st

-- A request that failed.
abbrev pub failed : Loop → Done
failed st = record {
  value = none;
  clears_payload = false;
  clears_addr = false;
  store = st.world.store;
  trace = st.world.trace;
  printed = [];
}

module _ (k : Liburing) (h : Host) where
  -- The wakeup branch.
  unfoldable pub rearm : Trace → Trace
  unfolding get_sqe
  rearm t =
      let (found, t') = get_sqe k t in
      elim found [
        | none ↦ t'
        | some sqe ↦
            set_data sqe wakeup_fd_tag ∷ prepped sqe (Prep.read h.wakeup_fd h.wakeup_buf 8 0) ∷ t'
      ]

  abbrev pub is_failure : Cqe → RequestSlot → Bool
  is_failure cqe slot =
      is_neg cqe.res && not (is_timeout slot.opcode && eqb_ℤ (errno_of cqe.res) (pos h.etime))

  -- The turn from the slot and its future on.
  unfoldable pub handle : Cqe → ℕ → ℕ → Loop → Option Loop
  unfolding settle rearm complete
  handle cqe i future st =
      let slot = slot_at st.world.registry i in
      if is_failure cqe slot
      then finish cqe i future
          (if h.makes cqe then set_exception future (errno_of cqe.res) ∷ [] else print_error ∷ [])
          (failed st) st
      else if cqe.user_data == wakeup_fd_tag
      then some (seen cqe (record st { world = record st.world { trace = rearm st.world.trace } }))
      else settle cqe i future
          (complete k h cqe (pos i) slot slot.opcode st.world.store st.world.trace) st

  unfoldable pub on_slot : Cqe → ℕ → Option ℕ → Loop → Option Loop
  unfolding handle
  on_slot cqe i none st = some (seen cqe st)
  on_slot cqe i (some future) st = handle cqe i future st

  unfoldable pub on_found : Cqe → Loop → Option ℕ → Option Loop
  unfolding on_slot
  on_found cqe st none = some (seen cqe st)
  on_found cqe st (some i) = on_slot cqe i (slot_at st.world.registry i).future st

  -- A turn of the loop.
  unfoldable pub on_cqe : Cqe → Loop → Option Loop
  unfolding on_found
  on_cqe cqe st = on_found cqe st (registry_get st.world.registry (index_of cqe))

  -- The loop over the completions that `io_uring_peek_cqe` finds.
  unfoldable pub on_uring_ready : List Cqe → Loop → Option Loop
  unfolding on_cqe
  on_uring_ready [] st = some st
  on_uring_ready (cqe ∷ cqes) st = on_cqe cqe st >>= on_uring_ready cqes
