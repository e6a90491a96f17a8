-- ===== src/System/Safe.antt =====
-- A completion finds the request that it belongs to.
use puring.Base.{
  ℕ, ◌≡◌, ◌≢◌, ◌<◌, sym, ap, ◌∙◌, inl, inr, ℤ, pos, true, false, Bool-cases, arith, none, some,
  List, [], ◌∷◌,
}
use puring.Uring.{Liburing}
use puring.Uring.Queue.{NoReuse}
use puring.Registry.{RequestRegistry, Entry, slot_at, registry_add}
use puring.Registry.Valid.{IsValid}
use puring.Ops.Request.{Request}
use puring.Ops.Words.{eqb_ℤ}
use puring.Submit.{World, Answer, submit}
use puring.Submit.Outcome.{Outcome, took, gave_up}
use puring.Submit.Finishes.{submit_lem}
use puring.Reader.{Cqe, Host}
use puring.Reader.Step.{Loop, index_of}
use puring.Reader.Invariant.{Handled, settled, left_alone, on_cqe-Handled}
use puring.System.{
  Flight, System, noted, Takes, first, later, without, Call, Step, submits, completes, elsewhere,
  Reach, start, next,
}

abbrev pub All {ℓ κ} : {A : Type ℓ} → (A → Type κ) → List A → Type κ
All P [] = Unit
All P (x ∷ xs) = P x × All P xs

-- The slot of a request in flight holds its future.
abbrev pub Holds : RequestRegistry → Flight → Type 0
Holds reg x = (x.index < reg.size) × ((slot_at reg x.index).future ≡ some x.future)

-- No two requests in flight have one index.
abbrev pub IsUnique : List Flight → Type 0
IsUnique [] = Unit
IsUnique (x ∷ xs) = All (λ y. y.index ≢ x.index) xs × IsUnique xs

pub record IsSafe (s : System) : Type 0 where
  pub valid : IsValid s.loop.world.registry
  pub holds : All (Holds s.loop.world.registry) s.flights
  pub unique : IsUnique s.flights

All-map {ℓ κ μ} :
    {A : Type ℓ} {P : A → Type κ} {Q : A → Type μ} (xs : List A)
    → ((x : A) → P x → Q x)
    → All P xs
    → All Q xs
All-map [] f h = tt
All-map (x ∷ xs) f (p, h) = (f x p, All-map xs f h)

pub All-Takes {ℓ κ} :
    {A : Type ℓ} (P : A → Type κ) {x : A} {xs ys : List A}
    → Takes x xs ys
    → All P xs
    → P x × All P ys
All-Takes P first h = h
All-Takes P (later t) (p, h) = let (q, r) = All-Takes P t h in (q, (p, r))

-- The requests that are left have other indices than the one that is taken.
pub IsUnique-Takes :
    {x : Flight} {xs ys : List Flight}
    → Takes x xs ys
    → IsUnique xs
    → All (λ y. y.index ≢ x.index) ys × IsUnique ys
IsUnique-Takes first h = h
IsUnique-Takes {x} (later {y} t) (fresh, h) =
    let (ne, rest) = All-Takes (λ z. z.index ≢ y.index) t fresh in
    let (others, unique) = IsUnique-Takes t h in (((λ e. ne (sym e)), others), (rest, unique))

All-without {κ} : (P : Flight → Type κ) (i : ℤ) (xs : List Flight) → All P xs → All P (without i xs)
All-without P i [] h = tt
All-without P i (x ∷ xs) (p, h) = elim (Bool-cases (eqb_ℤ i (pos x.index))) [
  | inl same ↦ rw same (All-without P i xs h)
  | inr other ↦ rw other (p, All-without P i xs h)
]

-- The requests that are left have other indices than the one that has been carried.
without-other : (i : ℤ) (xs : List Flight) → All (λ x. pos x.index ≢ i) (without i xs)
without-other i [] = tt
without-other i (x ∷ xs) = elim (Bool-cases (eqb_ℤ i (pos x.index))) [
  | inl same ↦ rw same (without-other i xs)
  | inr other ↦ rw other (
    (λ e. differ (sym (ap (λ j. eqb_ℤ j (pos x.index)) (sym e) ∙ eqb_self x.index) ∙ other)),
    without-other i xs,
  )
]
  where
    differ : true ≡ false → ⊥
    differ e = cc

    eqb_self : (n : ℕ) → eqb_ℤ (pos n) (pos n) ≡ true
    eqb_self n = ground arith

IsUnique-without : (i : ℤ) (xs : List Flight) → IsUnique xs → IsUnique (without i xs)
IsUnique-without i [] h = tt
IsUnique-without i (x ∷ xs) (fresh, h) = elim (Bool-cases (eqb_ℤ i (pos x.index))) [
  | inl same ↦ rw same (IsUnique-without i xs h)
  | inr other ↦ rw other (All-without (λ y. y.index ≢ x.index) i xs fresh, IsUnique-without i xs h)
]

-- Where the registries differ at one index only, the others hold what they held.
pub All-Holds :
    (reg reg' : RequestRegistry) (i : ℕ) (xs : List Flight)
    → reg.size ≡ reg'.size
    → ((j : ℕ) → j ≢ i → (slot_at reg' j).future ≡ (slot_at reg j).future)
    → All (λ x. x.index ≢ i) xs
    → All (Holds reg) xs
    → All (Holds reg') xs
All-Holds reg reg' i [] size same ne h = h
All-Holds reg reg' i (x ∷ xs) size same (n, ne) ((inside, held), h) =
    ((rw⁻¹ size inside, same x.index n ∙ held), All-Holds reg reg' i xs size same ne h)

module _ (k : Liburing) (fresh : NoReuse k) (h : Host) where
  Outcome-IsSafe :
      (s : System) (e : Entry) (reqs : ℤ → Request) (lost : ℕ → ℕ) {a : Answer} (w' : World)
      → IsSafe s
      → Outcome k e reqs lost s.loop.world w' a
      → let noted' =
          noted a (registry_add s.loop.world.registry e s.loop.world.store).0 s.flights in
        IsValid w'.registry × All (Holds w'.registry) noted' × IsUnique noted'
  Outcome-IsSafe s e reqs lost w' safe (took acc) =
      let reg = s.loop.world.registry in
      let vacant : All (λ x. x.index ≢ acc.index) s.flights =
        All-map s.flights
          (λ x (inside, held) same.
            held_not_vacant x.future
              (sym held ∙ ap (λ i. (slot_at reg i).future) same ∙ acc.was_vacant))
          safe.holds in
      rw acc.answered (
        acc.valid,
        (
          (acc.in_range, ap (λ x. x.future) acc.slot),
          All-Holds reg w'.registry acc.index s.flights (sym acc.size)
              (λ j ne. ap (λ x. x.future) (acc.others j ne)) vacant safe.holds,
        ),
        (vacant, safe.unique),
      )
    where
      held_not_vacant : (f : ℕ) → some f ≡ none → ⊥
      held_not_vacant f e = cc
  Outcome-IsSafe s e reqs lost w' safe (gave_up x r) = (
    r.valid,
    All-map s.flights (λ x (inside, held). (rw r.size inside, r.futures x.index ∙ held)) safe.holds,
    safe.unique,
  )

  submits-IsSafe :
      (s : System) (c : Call k s.loop.world) {a : Answer} {w' : World}
      → submit c.tail c.entry c.op s.loop.world ≡ some (a, w')
      → IsSafe s
      → let noted' =
          noted a (registry_add s.loop.world.registry c.entry s.loop.world.store).0 s.flights in
        IsValid w'.registry × All (Holds w'.registry) noted' × IsUnique noted'
  submits-IsSafe s c {a} {w'} e safe =
      let (b, w'', e', outcome) =
        submit_lem k fresh c.tail c.entry c.op c.timeout s.loop.world safe.valid c.reqs c.after
          c.lost c.gives c.runs c.keeps c.decides in
      let same : (b, w'') ≡ (a, w') = some-pair (sym e' ∙ e) in
      Outcome-IsSafe s c.entry c.reqs c.lost w' safe
        (rw (ap (λ x. x.0) same, ap (λ x. x.1) same) at outcome)
    where
      some-pair : {p q : Answer × World} → some p ≡ some q → p ≡ q
      some-pair e = cc

  completes-IsSafe :
      (s : System) (cqe : Cqe) {st' : Loop}
      → Handled cqe s.loop st'
      → IsSafe s
      → IsSafe (record { loop = st'; flights = without (index_of cqe) s.flights })
  completes-IsSafe s cqe {st'} (settled d) safe =
      let i = index_of cqe in
      let left = without i s.flights in
      record {
        valid = d.valid;
        holds =
            All-Holds s.loop.world.registry st'.world.registry d.index left (sym d.size)
              (λ j ne. ap (λ slot. slot.future) (d.others j ne))
              (All-map left (λ x ne e. ne (ap pos e ∙ sym d.tagged)) (without-other i s.flights))
              (All-without (Holds s.loop.world.registry) i s.flights safe.holds);
        unique = IsUnique-without i s.flights safe.unique;
      }
  completes-IsSafe s cqe (left_alone same) safe =
      let i = index_of cqe in
      record {
        valid = rw same safe.valid;
        holds = rw same (All-without (Holds s.loop.world.registry) i s.flights safe.holds);
        unique = IsUnique-without i s.flights safe.unique;
      }

  Step-IsSafe : {s t : System} → Step k h s t → IsSafe s → IsSafe t
  Step-IsSafe {s} (submits c events e) safe =
      let (valid, holds, unique) = submits-IsSafe s c e safe in
      record { valid = valid; holds = holds; unique = unique }
  Step-IsSafe {s} (completes cqe e) safe =
      completes-IsSafe s cqe (on_cqe-Handled k h cqe s.loop safe.valid e) safe
  Step-IsSafe {s} (elsewhere st' same) safe = record {
    valid = rw same safe.valid;
    holds = rw same safe.holds;
    unique = safe.unique;
  }

  -- However requests and completions are interleaved, from a valid registry with nothing in flight:
  -- the registry is valid, no two requests in flight have one index, and the slot of each holds the
  -- future that its method has answered. A request is in flight from its method's answer until a
  -- turn of the reader ends on a completion that carries its index, or longer where the turn leaves
  -- the registry as it is. The completions may be any, in any number: nothing is asked of the
  -- kernel, and of liburing only that it hands out no entry twice before it is submitted.
  pub Reach-IsSafe :
      (loop : Loop)
      → IsValid loop.world.registry
      → {t : System} → Reach k h (record { loop = loop; flights = [] }) t
      → IsSafe t
  Reach-IsSafe loop v start = record { valid = v; holds = tt; unique = tt }
  Reach-IsSafe loop v (next r st) = Step-IsSafe st (Reach-IsSafe loop v r)
