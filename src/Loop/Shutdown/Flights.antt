-- ===== src/Loop/Shutdown/Flights.antt =====
-- The requests in flight at a shutdown.
use puring.Base.{
  ℕ, ◌^◌, ◌≡◌, ◌≢◌, ◌<◌, refl, ap, ◌∙◌, ◌==◌, pos, to_unsigned, to_unsigned_of_lt, to_signed,
  to_signed_of_lt, Option, none, some, Bool, true, false, List, [], ◌∷◌, arith,
}
use puring.IndexStack.{free_count}
use puring.Uring.{Liburing, Trace, cqe_seen, wakeup_fd_tag}
use puring.Uring.Queue.{NoReuse}
use puring.Store.{Store}
use puring.Registry.{RequestRegistry, slot_at, release_slot, registry_get, registry_destroy}
use puring.Registry.Valid.{IsValid}
use puring.Registry.Remove.{removed, registry_remove_lem, registry_remove-aborts}
use puring.Ring.{ring_destroy}
use puring.Submit.{World}
use puring.Reader.{Cqe, Host}
use puring.Reader.Step.{Loop, index_of}
use puring.System.{Flight, System, Takes, Reach}
use puring.System.Safe.{All, All-Takes, IsUnique-Takes, All-Holds, Holds, IsUnique, Reach-IsSafe}
use puring.Loop.Shutdown.{shutdown_slot, shutdown_cqe, shutdown_cqes, graceful_shutdown}

-- The completions belong to requests in flight, one each, in this order.
pub data Lands : List Flight → List Cqe → Type 0 where
  all_in : {flights : List Flight} → Lands flights []
  lands :
      (x : Flight) (cqe : Cqe) {flights rest : List Flight} {cqes : List Cqe}
      → Takes x flights rest
      → cqe.user_data ≡ to_unsigned 64 (pos x.index)
      → Lands rest cqes
      → Lands flights (cqe ∷ cqes)

-- Their futures.
abbrev pub futures_of : {flights : List Flight} {cqes : List Cqe} → Lands flights cqes → List ℕ
futures_of all_in = []
futures_of (lands x cqe t tag l) = x.future ∷ futures_of l

held_not_vacant : (f : ℕ) {o : Option ℕ} → o ≡ some f → o ≢ none
held_not_vacant f held e = cc

module _ (reg : RequestRegistry) (v : IsValid reg) (cqe : Cqe) (i : ℕ) (hi : i < reg.size)
    (tag : cqe.user_data ≡ to_unsigned 64 (pos i)) where
  small : i < 2 ^ 31
  small = omega (arith, v.small)

  tagged : index_of cqe ≡ pos i
  tagged = ap (to_signed 31) (tag ∙ to_unsigned_of_lt i small) ∙ to_signed_of_lt i small

  not_wakeup : (cqe.user_data == wakeup_fd_tag) ≡ false
  not_wakeup = rw (tag ∙ to_unsigned_of_lt i small) (ground arith)

  found : registry_get reg (pos i) ≡ some i
  unfolding registry_get
  found = rw (to_signed_of_lt reg.size v.small) (ground arith)

  shutdown_cqe-slot :
      (makes : Bool) (s : Store) (t : Trace)
      → let w : World = record { registry = reg; store = s; trace = t } in
        shutdown_cqe makes cqe w ≡ shutdown_slot makes cqe (some i) w
  unfolding shutdown_cqe
  shutdown_cqe-slot makes s t =
      let w : World = record { registry = reg; store = s; trace = t } in
      rw not_wakeup (
        ap (λ x. shutdown_slot makes cqe (registry_get reg x) w) tagged
        ∙ ap (λ x. shutdown_slot makes cqe x w) found)

  -- A round on a completion of a request: its future is told, and its slot is given back.
  shutdown_cqe-tells :
      (f : ℕ) (s : Store) (t : Trace)
      → (slot_at reg i).future ≡ some f
      → shutdown_cqe true cqe (record { registry = reg; store = s; trace = t })
        ≡ some (
          record {
            registry = removed reg i;
            store = release_slot (slot_at reg i) s;
            trace = cqe_seen cqe.user_data ∷ t;
          },
          f ∷ [],
        )
  unfolding shutdown_slot
  shutdown_cqe-tells f s t held =
      let (done, _, _, _, _, _) = registry_remove_lem reg i v hi (held_not_vacant f held) s in
      shutdown_cqe-slot true s t ∙ (rw (tagged, done, held) refl)

  -- Where all slots are free, it is the call of `abort`.
  shutdown_cqe-aborts :
      (makes : Bool) (s : Store) (t : Trace)
      → free_count reg.top ≡ reg.size
      → shutdown_cqe makes cqe (record { registry = reg; store = s; trace = t }) ≡ none
  unfolding shutdown_slot
  shutdown_cqe-aborts makes s t full =
      shutdown_cqe-slot makes s t ∙ (rw (tagged, registry_remove-aborts reg i s v hi full) refl)

-- The `while` ends, on a valid registry, and has told the futures of all the requests.
shutdown_cqes-tells :
    (flights : List Flight) (cqes : List Cqe) (w : World)
    → IsValid w.registry
    → All (Holds w.registry) flights
    → IsUnique flights
    → (l : Lands flights cqes)
    → (w' : World) × (shutdown_cqes (λ cqe. true) cqes w ≡ some (w', futures_of l))
      × IsValid w'.registry
unfolding shutdown_cqes
shutdown_cqes-tells flights _ w v holds unique all_in = (w, refl, v)
shutdown_cqes-tells flights _ w v holds unique (lands x cqe {rest = rest} {cqes = cqes} t tag l) =
    let ((inside, held), later) = All-Takes (Holds w.registry) t holds in
    let (others, unique') = IsUnique-Takes t unique in
    let (done, _, kept, _, _, valid) =
      registry_remove_lem w.registry x.index v inside (held_not_vacant x.future held) w.store in
    let first =
      shutdown_cqe-tells w.registry v cqe x.index inside tag x.future w.store w.trace held in
    let w₁ : World = record {
      registry = removed w.registry x.index;
      store = release_slot (slot_at w.registry x.index) w.store;
      trace = cqe_seen cqe.user_data ∷ w.trace;
    } in
    let (w', e, v') =
      shutdown_cqes-tells rest cqes w₁ valid
        (All-Holds w.registry (removed w.registry x.index) x.index rest refl
          (λ j ne. ap (λ slot. slot.future) (kept j ne)) others later)
        unique' l in
    (w', rw (first, e) refl, v')

module _ (k : Liburing) (fresh : NoReuse k) (h : Host) (loop : Loop)
    (v : IsValid loop.world.registry) where
  -- A loop that is closed while requests are in flight, in any state that it can have come to from a
  -- valid registry with nothing in flight: where each completion that comes in belongs to a request
  -- in flight, and the exceptions can be made, `graceful_shutdown` never calls `abort`, and tells the
  -- future of each of these requests, in their order, that the loop is closed. The completions
  -- that come in at the close are taken to belong to different requests in flight; those before may
  -- be any, and liburing is taken to hand out no entry twice before it is submitted.
  pub graceful_shutdown-tells :
      {s : System} {cqes : List Cqe}
      → Reach k h (record { loop = loop; flights = [] }) s
      → (l : Lands s.flights cqes)
      → (store : Store) × (t : Trace) × (graceful_shutdown k (λ cqe. true) cqes s.loop.world
          ≡ some (store, t, futures_of l))
  unfolding graceful_shutdown
  graceful_shutdown-tells {s} {cqes} r l =
      let safe = Reach-IsSafe k fresh h loop v r in
      let (w', e, _) =
        shutdown_cqes-tells s.flights cqes s.loop.world safe.valid safe.holds safe.unique l in
      (registry_destroy w'.registry.slots w'.store, (ring_destroy k w'.trace).1, rw e refl)

-- A completion whose tag is in range, on a valid registry with nothing in flight, such as a second
-- one of a multishot request, makes `graceful_shutdown` call `abort`.
pub graceful_shutdown-aborts :
    (k : Liburing) (makes : Cqe → Bool) (w : World) (cqe : Cqe) (cqes : List Cqe) (i : ℕ)
    → IsValid w.registry
    → i < w.registry.size
    → free_count w.registry.top ≡ w.registry.size
    → cqe.user_data ≡ to_unsigned 64 (pos i)
    → graceful_shutdown k makes (cqe ∷ cqes) w ≡ none
unfolding graceful_shutdown shutdown_cqes
graceful_shutdown-aborts k makes w cqe cqes i v hi full tag =
    rw (shutdown_cqe-aborts w.registry v cqe i hi tag (makes cqe) w.store w.trace full) refl
