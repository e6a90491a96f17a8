-- ===== src/Submit/Leak.antt =====
-- A registered buffer whose read cannot be submitted.
use puring.Base.{ℕ, suc, ◌≡◌, refl, ap, ◌∙◌, ℤ, pos, negsuc, Option, none, some, false}
use puring.IndexStack.{free_count}
use puring.Uring.{Liburing, Trace}
use puring.Uring.Queue.{NoReuse}
use puring.Timer.{TimeoutParams}
use puring.Buffers.{LinearBuffer, fixed}
use puring.BufferIndex
use puring.Store.{Store, incref, decref, decref?, free_payload?, free?}
use puring.Registry.{
  StreamStrategy, RequestSlot, Entry, slot_at, release_slot, registry_add, registry_remove,
}
use puring.Registry
use puring.Registry.Valid.{IsValid, Free}
use puring.Registry.Add.{added, next_index, added-IsValid, in_range, registry_add-eq}
use puring.Registry.Remove.{removed, registry_remove_lem}
use puring.Registry.RoundTrip.{store-registry_add, is_held, top-removed, indices-removed}
use puring.Ops.Words.{u32}
use puring.Ops.Request.{Request, read_fixed, perform}
use puring.Ops.Contract.{post}
use puring.Ops.Conforms.{perform-Meets}
use puring.Dispatch.{linear_of}
use puring.Dispatch.Files.{read_dispatcher}
use puring.Dispatch.Fixed.{read_dispatcher-Dispatched}
use puring.Submit.{World, refused, sqe_not_available, submit, run_request, check_result}
use puring.Submit.Files.{file_entry, file_tail}

-- Releasing a slot gives no index of a buffer back.
indices-release_slot : (slot : RequestSlot) (s : Store) → (release_slot slot s).indices ≡ s.indices
indices-release_slot slot s =
    of_free slot.msghdr _
    ∙ of_decref slot.file _
    ∙ of_decref slot.socket _
    ∙ of_payload slot.buffer_payload _
    ∙ of_decref slot.future s
  where
    of_free : (p : Option ℕ) (s : Store) → (free? p s).indices ≡ s.indices
    of_free none s = refl
    of_free (some p) s = refl

    of_decref : (p : Option ℕ) (s : Store) → (decref? p s).indices ≡ s.indices
    of_decref none s = refl
    of_decref (some p) s = refl

    of_payload : (p : Option ℕ) (s : Store) → (free_payload? p false s).indices ≡ s.indices
    of_payload none s = refl
    of_payload (some p) s = refl

-- Without an entry, an operation returns -1.
perform-no_sqe :
    (k : Liburing)
    → NoReuse k
    → (o : Request) (i : ℤ) (tp : TimeoutParams) (t : Trace) → k.next_sqe t ≡ none
    → (perform k o i tp t).0 ≡ negsuc 0
unfolding post
perform-no_sqe k fresh o i tp t h = ap (λ x. x.0) (perform-Meets k fresh i tp t o) ∙ (rw h refl)

module _ (k : Liburing) (fresh : NoReuse k) (w : World) (v : IsValid w.registry) (m : ℕ)
    (top : w.registry.top ≡ pos m) (p r n : ℕ) (b : LinearBuffer)
    (registry : (w.store.payloads p).idx_registry ≡ some r)
    (mode : (w.store.payloads p).mode ≡ fixed) (linear : linear_of (w.store.payloads p) ≡ some b)
    (indices_top : (w.store.indices r).top ≡ pos n)
    (indices : BufferIndex.Valid.IsValid (w.store.indices r))
    (no_sqe : k.next_sqe w.trace ≡ none) where
  -- On a valid registry with a free slot, a read into a registered buffer, with an index at hand,
  -- that finds no submission entry is refused and its slot given back: the slot is free again, and
  -- the stack of free slots is what it was. But the index of its buffer is not given back: the
  -- registry of indices has one index less.
  pub read-leaks :
      (future file : ℕ) (stream : StreamStrategy) (fd size offset : ℤ) (tp : TimeoutParams)
      → let e = file_entry future (some p) stream Registry.read file in
        (w' : World) × (submit
            (file_tail future (some p))
            e
            (λ i s. read_dispatcher k fd p stream i size offset tp s)
            w
          ≡ some (refused sqe_not_available, w'))
        × IsValid w'.registry
        × Free w'.registry (next_index w.registry e w.store m)
        × (w'.registry.top ≡ w.registry.top)
        × (w'.registry.available_indices ≡ w.registry.available_indices)
        × (suc (free_count (w'.store.indices r).top) ≡ free_count (w.store.indices r).top)
  unfolding submit run_request check_result
  read-leaks future file stream fd size offset tp =
      let e = file_entry future (some p) stream Registry.read file in
      let i = next_index w.registry e w.store m in
      let left = added w.registry e w.store m in
      let (index, made) = registry_add-eq w.registry e w.store m top in
      let s₁ = incref file (incref future w.store) in
      let d =
        read_dispatcher-Dispatched k s₁ p r (pos i) tp n registry indices_top indices mode b linear
          fd stream size offset in
      let (done, _, _, now_free, _, valid) =
        registry_remove_lem left i (added-IsValid w.registry e w.store m top v)
          (in_range w.registry e w.store m top v) (is_held w.registry e w.store m top v)
          (decref future d.store) in
      (
        record {
          registry = removed left i;
          store = release_slot (slot_at left i) (decref future d.store);
          trace =
              (perform k (read_fixed fd b.buffer (u32 size) offset (pos d.index)) (pos i) tp
                w.trace).1;
        },
        rw
            (
              index,
              made,
              store-registry_add w.registry e w.store m top v,
              d.code,
              perform-no_sqe k fresh _ (pos i) tp w.trace no_sqe,
              done,
            )
            refl,
        valid,
        now_free,
        top-removed w.registry e w.store m top v,
        indices-removed w.registry e w.store m top v,
        rw (indices-release_slot (slot_at left i) (decref future d.store)) d.one_less,
      )
