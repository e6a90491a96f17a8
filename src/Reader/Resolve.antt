-- ===== src/Reader/Resolve.antt =====
-- What the completion of a registered request does to its future.
use puring.Base.{
  ℕ, ◌^◌, ◌≡◌, ◌<◌, ap, ◌∙◌, pos, to_unsigned, to_unsigned_of_lt, to_signed, to_signed_of_lt, some,
  true, false, [], ◌∷◌, ◌++◌, ◌==◌, arith,
}
use mathlib.Core.List.{append-nil}
use puring.Uring.{Liburing, wakeup_fd_tag}
use puring.Registry.{slot_at, registry_get}
use puring.Registry.Valid.{IsValid}
use puring.Reader.{Cqe, set_exception, Host, Done, completed}
use puring.Reader.Complete.{complete}
use puring.Reader.Step.{
  Loop, index_of, errno_of, failed, is_failure, result_events, settle, handle, on_slot, on_found,
  on_cqe,
}
use puring.Reader.Invariant.{Settled, finish_lem}

module _ (k : Liburing) (h : Host) (cqe : Cqe) (st : Loop) (v : IsValid st.world.registry) (i f : ℕ)
    (hi : i < st.world.registry.size) (held : (slot_at st.world.registry i).future ≡ some f)
    (tag : cqe.user_data ≡ to_unsigned 64 (pos i)) where
  small : i < 2 ^ 31
  small = omega (arith, v.small)

  tagged : index_of cqe ≡ pos i
  tagged = ap (to_signed 31) (tag ∙ to_unsigned_of_lt i small) ∙ to_signed_of_lt i small

  not_wakeup : (cqe.user_data == wakeup_fd_tag) ≡ false
  not_wakeup = rw (tag ∙ to_unsigned_of_lt i small) (ground arith)

  found : registry_get st.world.registry (pos i) ≡ some i
  unfolding registry_get
  found = rw (to_signed_of_lt st.world.registry.size v.small) (ground arith)

  on_cqe-handle : on_cqe k h cqe st ≡ handle k h cqe i f st
  unfolding on_cqe on_found on_slot
  on_cqe-handle =
      ap (λ x. on_found k h cqe st (registry_get st.world.registry x)) tagged
      ∙ ap (on_found k h cqe st) found
      ∙ ap (λ o. on_slot k h cqe i o st) held

  -- On a valid registry, a completion tagged with a registered request, of an error that is no
  -- expired timeout, raises the error in the future of that request, where the exception can be
  -- made, and settles the request: its slot becomes free and no other changes.
  pub on_cqe-fails :
      is_failure k h cqe (slot_at st.world.registry i) ≡ true
      → h.makes cqe ≡ true
      → (st' : Loop) × (on_cqe k h cqe st ≡ some st')
        × (st'.events ≡ st.events ++ set_exception f (errno_of cqe.res) ∷ [])
        × Settled cqe st st'
  unfolding handle
  on_cqe-fails fails makes =
      let (st', e, events, s) =
        finish_lem cqe st v i f hi tagged held (set_exception f (errno_of cqe.res) ∷ [])
          (failed st) in
      (st', on_cqe-handle ∙ (rw (fails, makes) e), events ∙ append-nil _ ∙ append-nil _, s)

  -- On a valid registry, a completion tagged with a registered request, of no such error, whose
  -- `switch` is completed, hands the future of that request the result that the `switch` has made,
  -- if it has made one, and settles the request: its slot becomes free and no other changes.
  pub on_cqe-resolves :
      (d : Done)
      → is_failure k h cqe (slot_at st.world.registry i) ≡ false
      → complete k h cqe
          (pos i)
          (slot_at st.world.registry i)
          (slot_at st.world.registry i).opcode
          st.world.store
          st.world.trace
        ≡ some (completed d)
      → (st' : Loop) × (on_cqe k h cqe st ≡ some st')
        × (st'.events ≡ st.events ++ d.printed ++ result_events f d.value)
        × Settled cqe st st'
  unfolding handle settle
  on_cqe-resolves d runs made =
      let (st', e, events, s) = finish_lem cqe st v i f hi tagged held [] d in
      (
        st',
        on_cqe-handle ∙ (rw (runs, not_wakeup, made) e),
        events ∙ ap (λ x. x ++ d.printed ++ result_events f d.value) (append-nil st.events),
        s,
      )
