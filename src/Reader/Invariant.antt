-- ===== src/Reader/Invariant.antt =====
-- What a turn of the reader does to the registry.
use puring.Base.{
  ℕ, suc, ◌≡◌, ◌≢◌, ◌<◌, ◌^◌, refl, sym, ap, ◌∙◌, ◌⊎◌, inl, inr, ℤ, pos, negsuc, to_signed_of_lt,
  to_signed, to_signed-all_ones, ltb, Option, none, some, Option-cases, true, Bool-cases, List, [],
  ◌∷◌, ◌++◌, ◌==◌, arith, length-set, get_or-set_self, get_or-set_ne, ℕ_discrete,
}
use puring.IndexStack.{free_count}
use puring.Uring.{Liburing, wakeup_fd_tag}
use puring.Registry.{RequestRegistry, RequestSlot, zero_slot, release_slot, slot_at, registry_get}
use puring.Registry.Count.{occupied-set, weight}
use puring.Registry.Valid.{IsValid, Free}
use puring.Registry.Remove.{removed, registry_remove_lem}
use puring.Reader.{Cqe, Event, Host, Done, Completion, completed, skipped}
use puring.Reader.Complete.{complete}
use puring.Reader.Step.{
  Loop, index_of, seen, slot_after, set_slot, drop_result, result_events, finish, finished, ended,
  on_found, settle, failed, handle, is_failure, on_slot, on_cqe, on_uring_ready,
}

-- A slot may be rewritten as long as it keeps its future.
module _ (reg : RequestRegistry) (i : ℕ) (slot : RequestSlot) (v : IsValid reg) (hi : i < reg.size)
    (same : slot.future ≡ (slot_at reg i).future) where
  here : slot_at (set_slot reg i slot) i ≡ slot
  here = get_or-set_self reg.slots i slot zero_slot (rw v.slots_room hi)

  other : (j : ℕ) → j ≢ i → slot_at (set_slot reg i slot) j ≡ slot_at reg j
  other j ne = get_or-set_ne reg.slots i j slot zero_slot (omega arith)

  future-set_slot : (j : ℕ) → (slot_at (set_slot reg i slot) j).future ≡ (slot_at reg j).future
  future-set_slot j = elim (ℕ_discrete j i) [
    | yes e ↦ rw e (ap (λ x. x.future) here ∙ same)
    | no ne ↦ ap (λ x. x.future) (other j ne)
  ]

  set_slot-IsValid : IsValid (set_slot reg i slot)
  set_slot-IsValid = record {
    small = v.small;
    slots_room = length-set reg.slots i slot ∙ v.slots_room;
    room = v.room;
    low = v.low;
    high = v.high;
    distinct = v.distinct;
    bounded = v.bounded;
    vacant = λ j f. future-set_slot j ∙ v.vacant j f;
    complete = λ j hj e. v.complete j hj (sym (future-set_slot j) ∙ e);
    counted =
        omega
          (arith, v.counted, ap weight same, occupied-set reg.slots i slot (rw v.slots_room hi));
  }

-- A request that has been settled: its slot held a future and is free now, the other slots are what
-- they were, and the registry is valid.
pub record Settled (cqe : Cqe) (st st' : Loop) : Type 0 where
  pub index : ℕ
  pub future : ℕ
  pub tagged : index_of cqe ≡ pos index
  pub was_held : (slot_at st.world.registry index).future ≡ some future
  pub now_free : Free st'.world.registry index
  pub one_more : free_count st'.world.registry.top ≡ suc (free_count st.world.registry.top)
  pub others : (j : ℕ) → j ≢ index → slot_at st'.world.registry j ≡ slot_at st.world.registry j
  pub size : st'.world.registry.size ≡ st.world.registry.size
  pub valid : IsValid st'.world.registry

-- A turn that finishes: the request is settled, or the registry stays as it is.
pub data Handled (cqe : Cqe) (st st' : Loop) : Type 0 where
  settled : Settled cqe st st' → Handled cqe st st'
  left_alone : st'.world.registry ≡ st.world.registry → Handled cqe st st'

Handled-IsValid :
    {cqe : Cqe} {st st' : Loop}
    → Handled cqe st st'
    → IsValid st.world.registry
    → IsValid st'.world.registry
Handled-IsValid (settled s) v = s.valid
Handled-IsValid (left_alone same) v = rw same v

-- The answer of a turn.
abbrev pub Turn : Cqe → Loop → Option Loop → Type 0
Turn cqe st answer = (st' : Loop) × (answer ≡ some st') × Handled cqe st st'

module _ (cqe : Cqe) (st : Loop) (v : IsValid st.world.registry) (i f : ℕ)
    (hi : i < st.world.registry.size) (tagged : index_of cqe ≡ pos i)
    (held : (slot_at st.world.registry i).future ≡ some f) where
  abbrev requests : RequestRegistry
  requests = st.world.registry

  -- The end of a turn settles the request, whatever the `switch` has left.
  pub finish_lem :
      (before : List Event) (d : Done)
      → (st' : Loop) × (finish cqe i f before d st ≡ some st')
        × (st'.events ≡ st.events ++ before ++ d.printed ++ result_events f d.value)
        × Settled cqe st st'
  unfolding finish ended
  finish_lem before d =
      let slot = slot_after d (slot_at requests i) in
      let requests' = set_slot requests i slot in
      let v' = set_slot-IsValid requests i slot v hi refl in
      let held' : (slot_at requests' i).future ≢ none =
        λ e. none_not_some (sym e ∙ future-set_slot requests i slot v hi refl i ∙ held) in
      let (done, empty, kept, now_free, one_more, valid) =
        registry_remove_lem requests' i v' hi held' (drop_result d.value d.store) in
      (
        finished cqe f before d st
            (removed requests' i, release_slot (slot_at requests' i) (drop_result d.value d.store)),
        rw done refl,
        refl,
        record {
          index = i;
          future = f;
          tagged = tagged;
          was_held = held;
          now_free = now_free;
          one_more = one_more;
          others = λ j ne. kept j ne ∙ other requests i slot v hi refl j ne;
          size = refl;
          valid = valid;
        },
      )
    where
      none_not_some : none ≡ some f → ⊥
      none_not_some e = cc

  finish-Turn : (before : List Event) (d : Done) → Turn cqe st (finish cqe i f before d st)
  finish-Turn before d = let (st', e, events, s) = finish_lem before d in (st', e, settled s)

  settle-Turn :
      (c : Option Completion)
      → ((c ≡ none) × (settle cqe i f c st ≡ none)) ⊎ Turn cqe st (settle cqe i f c st)
  unfolding settle
  settle-Turn none = inl (refl, refl)
  settle-Turn (some (skipped s printed)) = inr (_, refl, left_alone refl)
  settle-Turn (some (completed d)) = inr (finish-Turn [] d)

  -- The turn from the slot on, unless the `switch` reads through NULL.
  handle-Turn :
      (k : Liburing) (h : Host)
      → ((complete k h cqe
              (pos i)
              (slot_at requests i)
              (slot_at requests i).opcode
              st.world.store
              st.world.trace
            ≡ none)
          × (handle k h cqe i f st ≡ none))
        ⊎ Turn cqe st (handle k h cqe i f st)
  unfolding handle
  handle-Turn k h = elim (Bool-cases (is_failure k h cqe (slot_at requests i))) [
    | inl fails ↦ inr (rw fails (finish-Turn _ (failed st)))
    | inr runs ↦ elim (Bool-cases (cqe.user_data == wakeup_fd_tag)) [
      | inl wakes ↦ inr (rw (runs, wakes) (_, refl, left_alone refl))
      | inr other ↦ rw (runs, other) (settle-Turn _)
    ]
  ]

some_injective : (m n : ℕ) → some m ≡ some n → m ≡ n
some_injective m n h = cc

not_some : (i : ℕ) → none ≡ some i → ⊥
not_some i h = cc

ltb_lt : (m n : ℕ) → ltb m n ≡ true → m < n
ltb_lt m n h = ground arith

registry_get-inside :
    (reg : RequestRegistry) (x : ℤ) (i : ℕ)
    → reg.size < 2 ^ 31
    → registry_get reg x ≡ some i
    → (x ≡ pos i) × (i < reg.size)
unfolding registry_get
registry_get-inside reg (negsuc n) i small h = cc
registry_get-inside reg (pos n) i small h = elim (Bool-cases (ltb n reg.size)) [
  | inl p ↦
      let same : n ≡ i = some_injective n i (rw (to_signed_of_lt reg.size small, p) at h) in
      (ap pos same, rw same at (ltb_lt n reg.size p))
  | inr p ↦ absurd (not_some i (rw (to_signed_of_lt reg.size small, p) at h))
]

-- The `switch` reads through NULL at the slot of the completion, and the turn does not go on.
abbrev pub IsStuck : Liburing → Host → Cqe → Loop → Type 0
IsStuck k h cqe st =
    (i : ℕ) × (index_of cqe ≡ pos i)
    × ((slot_at st.world.registry i).future ≢ none)
    × (complete k h cqe (pos i) (slot_at st.world.registry i) (slot_at st.world.registry i).opcode
          st.world.store st.world.trace
        ≡ none)
    × (on_cqe k h cqe st ≡ none)

module _ (k : Liburing) (h : Host) (cqe : Cqe) (st : Loop) (v : IsValid st.world.registry) where
  -- A turn on a valid registry never calls `abort`. Unless the `switch` reads through NULL, it
  -- finishes, and it has settled one request, whose slot becomes free, or left the registry as it was.
  pub on_cqe_lem : IsStuck k h cqe st ⊎ Turn cqe st (on_cqe k h cqe st)
  unfolding on_cqe on_found on_slot
  on_cqe_lem = elim (Option-cases (registry_get st.world.registry (index_of cqe))) [
    | inl outside ↦ inr (rw outside (_, refl, left_alone refl))
    | inr (i, found) ↦
        let (tagged, inside) =
          registry_get-inside st.world.registry (index_of cqe) i v.small found in
        elim (Option-cases (slot_at st.world.registry i).future) [
          | inl empty ↦ inr (rw (found, empty) (_, refl, left_alone refl))
          | inr (f, held) ↦ elim (handle-Turn cqe st v i f inside tagged held k h) [
            | inl (reads, stops) ↦
                inl (i, tagged, (λ e. not_none f (sym held ∙ e)), reads, (rw (found, held) stops))
            | inr turn ↦ inr (rw (found, held) turn)
          ]
        ]
  ]
    where
      not_none : (f : ℕ) → some f ≡ none → ⊥
      not_none f e = cc

module _ (k : Liburing) (h : Host) where
  -- A turn that finishes has settled one request or left the registry as it was.
  pub on_cqe-Handled :
      (cqe : Cqe) (st : Loop)
      → IsValid st.world.registry
      → {st' : Loop} → on_cqe k h cqe st ≡ some st'
      → Handled cqe st st'
  on_cqe-Handled cqe st v e = elim (on_cqe_lem k h cqe st v) [
    | inl (i, tagged, held, reads, stops) ↦ absurd (stopped (sym stops ∙ e))
    | inr (st'', e', handled) ↦ rw (some-loop (sym e' ∙ e)) at handled
  ]
    where
      stopped : {p : Loop} → none ≡ some p → ⊥
      stopped e = cc

      some-loop : {p q : Loop} → some p ≡ some q → p ≡ q
      some-loop e = cc

  -- The reader, on these completions and from this state, comes to one whose turn is stuck, on a
  -- valid registry; the turns before it finish.
  pub data GetsStuck : List Cqe → Loop → Type 0 where
    now :
        {cqe : Cqe} {cqes : List Cqe} {st : Loop}
        → IsValid st.world.registry
        → IsStuck k h cqe st
        → GetsStuck (cqe ∷ cqes) st
    later :
        {cqe : Cqe} {cqes : List Cqe} {st st' : Loop}
        → on_cqe k h cqe st ≡ some st'
        → GetsStuck cqes st'
        → GetsStuck (cqe ∷ cqes) st

  -- However many completions there are, the reader never calls `abort`: it comes to the end with a
  -- valid registry, or, after turns that finish, reaches one of these completions, with a valid
  -- registry, whose request's `switch` reads through NULL, and that is where it stops.
  pub on_uring_ready_lem :
      (cqes : List Cqe) (st : Loop)
      → IsValid st.world.registry
      → ((st' : Loop) × (on_uring_ready k h cqes st ≡ some st') × IsValid st'.world.registry)
        ⊎ (GetsStuck cqes st × (on_uring_ready k h cqes st ≡ none))
  unfolding on_uring_ready
  on_uring_ready_lem [] st v = inl (st, refl, v)
  on_uring_ready_lem (cqe ∷ cqes) st v = elim (on_cqe_lem k h cqe st v) [
    | inl (i, tagged, held, reads, stops) ↦
        inr (now v (i, tagged, held, reads, stops), (rw stops refl))
    | inr (st₁, turn, done) ↦ elim (on_uring_ready_lem cqes st₁ (Handled-IsValid done v)) [
      | inl (st', e, v') ↦ inl (st', (rw turn e), v')
      | inr (stuck, e) ↦ inr (later turn stuck, (rw turn e))
    ]
  ]

-- The completion of the wakeup read is dropped: its tag is no index, so that the turn ends before
-- the branch that would arm the read again, and nothing but the completion is consumed.
pub on_cqe-wakeup :
    (k : Liburing) (h : Host) (cqe : Cqe) (st : Loop)
    → cqe.user_data ≡ wakeup_fd_tag
    → on_cqe k h cqe st ≡ some (seen cqe st)
unfolding on_cqe on_found registry_get
on_cqe-wakeup k h cqe st tag =
    ap (λ x. on_found k h cqe st (registry_get st.world.registry x))
      (ap (to_signed 31) tag ∙ to_signed-all_ones)
