-- ===== src/Submit/Finishes.antt =====
-- The tail of a method always finishes, with one of the two outcomes.
use puring.Base.{
  ℕ, ◌+◌, ◌-◌, ◌≡◌, refl, sym, ap, ◌∙◌, ◌≢◌, inl, inr, ℤ, pos, negsuc, ltb_ℤ, Option, none, some,
  true, false, Bool-cases, List, [], arith, ℕ_discrete,
}
use puring.Uring.{Liburing, Trace, Code}
use puring.Uring.Queue.{NoReuse, sent}
use puring.Uring.Queue
use puring.Timer.{TimeoutParams}
use puring.Store.{Store, incref?}
use puring.Registry.{Entry, filled, slot_at, release_slot}
use puring.Registry.Valid.{IsValid}
use puring.Registry.Add.{
  top-cases, registry_add-full, registry_add-eq, registry_add_lem, added, next_index, here,
  added-IsValid, in_range,
}
use puring.Registry.Remove.{removed, registry_remove_lem}
use puring.Registry.RoundTrip.{
  held, refs-incref?, refs-release_slot, store-registry_add, is_held, top-removed, indices-removed,
}
use puring.IndexStack.{free_count}
use puring.Ops.Request.{Request, Draft, draft, perform}
use puring.Ops.Contract.{Queue, queue, second_sqe, flush, finish}
use puring.Ops.Conforms.{perform-Meets}
use puring.Ops.Results.{post-cases, perform-Delivered, sent-perform, waiting-perform}
use puring.Submit.Outcome.{registered, Gives, Accepted, Refused, Outcome, took, gave_up}
use puring.Submit.{
  World, Answer, Tail, registry_full, accepted, refused, run_request, submit, check_result,
}

finish-accepts :
    (d : Option Draft) (p : ℕ) (i : ℤ) (link : List ℕ) (before : List Queue.Entry) (r : ℤ)
    (q : Queue)
    → ltb_ℤ (finish d p i link before r q).0 (pos 1) ≡ false
    → (finish d p i link before r q).0 ≡ pos 1
unfolding flush
finish-accepts none p i link before r q h = cc
finish-accepts (some d) p i link before (pos n) q h = refl
finish-accepts (some d) p i link before (negsuc n) q h = cc

module _ (k : Liburing) (fresh : NoReuse k) (i : ℤ) (tp : TimeoutParams) (t : Trace)
    (o : Request) where
  -- An operation that does not fail returns 1.
  pub perform-accepts :
      ltb_ℤ (perform k o i tp t).0 (pos 1) ≡ false → (perform k o i tp t).0 ≡ pos 1
  perform-accepts h =
      let e = perform-Meets k fresh i tp t o in
      ap (λ x. x.0) e
      ∙ post-cases k (draft k o) i tp _ (queue t) (λ a x. ltb_ℤ x.0 (pos 1) ≡ false → x.0 ≡ pos 1)
          (λ h. cc) (λ p h. cc)
          (λ p link before h. finish-accepts (draft k o) p i link before _ (queue t) h)
          (k.next_sqe t) (second_sqe k t) (sym (ap (λ x. ltb_ℤ x.0 (pos 1)) e) ∙ h)

refs-registered :
    (e : Entry) (i : ℕ) (s : Store) (x : ℕ)
    → (registered e s).refs x ≡ s.refs x + held x (filled e i)
refs-registered e i s x =
    let s₁ = incref? (some e.future) s in
    let s₂ = incref? e.socket s₁ in
    omega (
      arith,
      refs-incref? x e.file s₂,
      refs-incref? x e.socket s₁,
      refs-incref? x (some e.future) s,
    )

not-below-one : (x : ℤ) → ltb_ℤ x (pos 1) ≡ true → x ≢ pos 1
not-below-one x below one = cc (sym (rw one at below))

-- What a tail calls: at each index, one of the requests, in a store of the same references.
module _ (k : Liburing) (fresh : NoReuse k) (tail : Tail) (e : Entry)
    (op : ℤ → Store → Option (Code ℤ × Store)) (tp : TimeoutParams) (w : World)
    (v : IsValid w.registry) (reqs : ℤ → Request) (after : ℤ → Store) (lost : ℕ → ℕ)
    (gives : Gives tail lost)
    (runs : (i : ℤ) → op i (registered e w.store) ≡ some (perform k (reqs i) i tp, after i))
    (keeps : (i : ℤ) (x : ℕ) → (after i).refs x ≡ (registered e w.store).refs x)
    (decides : (i : ℤ) (t : Trace)
      → tail.fails (perform k (reqs i) i tp t).0
        ≡ ltb_ℤ (perform k (reqs i) i tp t).0 (pos 1)) where
  submit-full :
      free_count w.registry.top ≡ 0
      → submit tail e op w ≡ some (refused registry_full, record w { store = tail.on_full w.store })
  unfolding submit run_request
  submit-full full = rw (registry_add-full w.registry e w.store full) refl

  full-Refused : Refused lost w (record w { store = tail.on_full w.store })
  full-Refused = record {
    valid = v;
    size = refl;
    top = refl;
    indices = refl;
    futures = λ j. refl;
    refs = λ x. gives.full w.store x;
    unsent = refl;
    left = [];
    left_behind = refl;
  }

  module _ (n : ℕ) (top : w.registry.top ≡ pos n) where
    abbrev i : ℕ
    i = next_index w.registry e w.store n

    -- The state in which the result is checked.
    abbrev left : World
    left = record {
      registry = added w.registry e w.store n;
      store = after (pos i);
      trace = (perform k (reqs (pos i)) (pos i) tp w.trace).1;
    }

    abbrev result : ℤ
    result = (perform k (reqs (pos i)) (pos i) tp w.trace).0

    abbrev given_up : World
    given_up = record left {
      registry = removed left.registry i;
      store = tail.afterwards (release_slot (slot_at left.registry i) (tail.on_failure left.store));
    }

    submit-eq : submit tail e op w ≡ check_result tail result (pos i) e.future left
    unfolding submit run_request
    submit-eq =
        let (index, made) = registry_add-eq w.registry e w.store n top in
        rw (index, made, store-registry_add w.registry e w.store n top v, runs (pos i)) refl

    check-above :
        ltb_ℤ result (pos 1) ≡ false
        → check_result tail result (pos i) e.future left ≡ some (accepted e.future, left)
    unfolding check_result
    check-above above = rw (decides (pos i) w.trace, above) refl

    left-Accepted : ltb_ℤ result (pos 1) ≡ false → Accepted k e reqs w left
    left-Accepted above =
        let (_, _, vacant, _, others, _, _) = registry_add_lem w.registry e w.store n top v in
        let (answered, made) = registry_add-eq w.registry e w.store n top in
        record {
          index = i;
          answered = answered;
          in_range = in_range w.registry e w.store n top v;
          was_vacant = vacant;
          slot = here w.registry e w.store n top v;
          others = rw made at others;
          size = refl;
          valid = added-IsValid w.registry e w.store n top v;
          refs = λ x. keeps (pos i) x ∙ refs-registered e i w.store x;
          delivered =
              perform-Delivered k fresh (pos i) tp w.trace (reqs (pos i))
                (perform-accepts k fresh (pos i) tp w.trace (reqs (pos i)) above);
        }

    abbrev failing : Store
    failing = tail.on_failure left.store

    check-given_up :
        ltb_ℤ result (pos 1) ≡ true
        → check_result tail result (pos i) e.future left
          ≡ some (refused (tail.failure result), given_up)
    unfolding check_result
    check-given_up below =
        let (done, _, _, _, _, _) =
          registry_remove_lem left.registry i (added-IsValid w.registry e w.store n top v)
            (in_range w.registry e w.store n top v) (is_held w.registry e w.store n top v)
            failing in
        rw (decides (pos i) w.trace, below, done) refl

    refs-given_up : (x : ℕ) → given_up.store.refs x ≡ w.store.refs x - lost x
    refs-given_up x =
        gives.kept (release_slot (slot_at left.registry i) failing) x
        ∙ rw (here w.registry e w.store n top v) (
            omega (
              arith,
              refs-release_slot x (filled e i) failing,
              gives.failed left.store x,
              keeps (pos i) x,
              refs-registered e i w.store x,
            ))

    futures-given_up :
        (j : ℕ) → (slot_at given_up.registry j).future ≡ (slot_at w.registry j).future
    futures-given_up j =
        let (_, empty, kept, _, _, _) =
          registry_remove_lem left.registry i (added-IsValid w.registry e w.store n top v)
            (in_range w.registry e w.store n top v) (is_held w.registry e w.store n top v)
            failing in
        let (_, _, vacant, _, others, _, _) = registry_add_lem w.registry e w.store n top v in
        let (_, made) = registry_add-eq w.registry e w.store n top in
        elim (ℕ_discrete j i) [
          | yes same ↦ rw same (ap (λ x. x.future) empty ∙ sym vacant)
          | no ne ↦ ap (λ x. x.future) (kept j ne ∙ (rw made at others) j ne)
        ]

    given_up-Refused : ltb_ℤ result (pos 1) ≡ true → Refused lost w given_up
    given_up-Refused below =
        let (_, _, _, _, _, valid) =
          registry_remove_lem left.registry i (added-IsValid w.registry e w.store n top v)
            (in_range w.registry e w.store n top v) (is_held w.registry e w.store n top v)
            failing in
        let (behind, waits) =
          waiting-perform k fresh (pos i) tp w.trace (reqs (pos i)) (not-below-one result below) in
        record {
          valid = valid;
          size = refl;
          top = top-removed w.registry e w.store n top v;
          indices = indices-removed w.registry e w.store n top v;
          futures = futures-given_up;
          refs = refs-given_up;
          unsent =
              sent-perform k fresh (pos i) tp w.trace (reqs (pos i)) (not-below-one result below);
          left = behind;
          left_behind = waits;
        }

  -- The tail of a method, from `registry_add` on, always finishes on a valid registry, without a
  -- call of `abort`: its request is accepted, its slot filled, and its entry, with the tag of the
  -- slot, put behind all that waited in the submission queue, of which the kernel has been handed
  -- the oldest, as many as io_uring_submit has answered, and the others wait on; or it is refused,
  -- the free indices are what they were, only the objects that the tail gives up have lost a
  -- reference, and the kernel has been handed nothing, but what was prepared stays in the queue.
  -- The operation is taken to run one of the requests, to change no reference count, and to fail
  -- where it returns less than 1, and liburing to hand out no entry twice before it is submitted.
  pub submit_lem :
      (answer : Answer) × (w' : World) × (submit tail e op w ≡ some (answer, w'))
      × Outcome k e reqs lost w w' answer
  submit_lem = elim (top-cases w.registry.top v.low) [
    | inl full ↦ (_, _, submit-full full, gave_up registry_full full-Refused)
    | inr (n, top) ↦ elim (Bool-cases (ltb_ℤ (result n top) (pos 1))) [
      | inl below ↦ (
        _,
        _,
        submit-eq n top ∙ check-given_up n top below,
        gave_up (tail.failure (result n top)) (given_up-Refused n top below),
      )
      | inr above ↦
          (_, _, submit-eq n top ∙ check-above n top above, took (left-Accepted n top above))
    ]
  ]
