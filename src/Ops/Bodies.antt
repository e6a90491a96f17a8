-- ===== src/Ops/Bodies.antt =====
-- The bodies of the operations, below the macro that opens them: each fills in the entry `p` that
-- waits behind the entries `before`, and submits.
use puring.Base.{
  ℕ, ◌≡◌, refl, ◌≢◌, ℤ, pos, negsuc, is_neg, to_unsigned, if◌then◌else◌, Option, none, some, List,
  [], ◌∷◌, ◌++◌, arith,
}
use puring.Uring.{
  Liburing, Prep, Trace, Code, ◌>>◌, pure, call, prepped, or_flags, or_ioprio, set_buf_group,
  set_buf_index, set_data, submitted,
}
use puring.Uring.Queue.{Entry, blank, assign, pending, sent}
use puring.Timer.{tag_and_submit}
use puring.Ops.Request.{Draft, plain, selecting, registered}
use puring.Ops.Words.{u16}
use puring.Ops.Contract.{Queue, queue, fill, flush, finish, earlier}

-- No entry of the list is at the address `p`.
abbrev pub Apart : ℕ → List Entry → Type 0
Apart p [] = Unit {0}
Apart p (e ∷ es) = (e.sqe ≢ p) × Apart p es

-- An assignment passes over the entries at other addresses.
assign-append :
    (p : ℕ) (f : Entry → Entry) (es : List Entry) (e : Entry) (rest : List Entry)
    → Apart p es
    → e.sqe ≡ p
    → assign p f (es ++ e ∷ rest) ≡ es ++ f e ∷ rest
assign-append p f [] e rest h same = ground arith
assign-append p f (x ∷ es) e rest h same = ground (arith, assign-append p f es e rest h.1 same)

-- The entry `p` as the macro leaves it.
abbrev pub taken : ℕ → List ℕ → Entry
taken p link = record (blank p) { flags = link }

flush-submitted :
    (r : ℤ) (u : Trace) (w : List Entry)
    → pending u ≡ w
    → ◌≡◌ {A = ℤ × Queue}
        (if is_neg r then pos 0 else pos 1, queue (submitted r ∷ u))
        (flush r (record { waiting = w; batches = sent u }))
unfolding flush pending sent
flush-submitted (pos n) u w e = rw e
flush-submitted (negsuc n) u w e = rw e

module _ (k : Liburing) (p : ℕ) (i : ℤ) (link : List ℕ) (before : List Entry)
    (rest : List Entry) where
  -- What is to be proved of a body, run at `u`.
  abbrev pub Fills : Option Draft → Code ℤ → Trace → Type 0
  Fills d body u =
      let (c, u') = body u in
      (c, queue u')
      ≡ finish d p i link before (k.submit_result (earlier u'))
          (record { waiting = rest; batches = sent u })

  pub tag_and_submit-Fills :
      (d : Draft) (u : Trace)
      → Apart p before
      → pending u ≡ before ++ record (fill p i link d) { user_data = none } ∷ rest
      → Fills (some d) (tag_and_submit k p i) u
  unfolding tag_and_submit pending sent flush
  tag_and_submit-Fills d u apart e =
      flush-submitted (k.submit_result (set_data p (to_unsigned 64 i) ∷ u)) _ _
        (rw e (assign-append p _ before _ rest apart refl))

  module _ (u : Trace) (apart : Apart p before)
      (e : pending u ≡ before ++ taken p link ∷ rest) where
    -- An assignment at the address of the waiting entry `x` changes that entry.
    written :
        (f : Entry → Entry) (x : Entry) (v : Trace)
        → x.sqe ≡ p
        → pending v ≡ before ++ x ∷ rest
        → assign p f (pending v) ≡ before ++ f x ∷ rest
    written f x v same now = rw now (assign-append p f before x rest apart same)

    -- One call prepares the entry.
    pub plain-Fills :
        (r : Prep) → Fills (some (plain r)) (call (prepped p r) >> tag_and_submit k p i) u
    unfolding pending sent
    plain-Fills r =
        tag_and_submit-Fills (plain r) (prepped p r ∷ u) apart
          (written (λ x. record x { request = some r }) (taken p link) u refl e)

    -- The kernel is to pick the buffer, from a group.
    pub selecting-Fills :
        (bgid : ℤ) (r : Prep)
        → Fills
            (some (selecting k bgid r))
            (call (prepped p r)
              >> call (or_flags p k.iosqe_buffer_select)
              >> call (set_buf_group p (u16 bgid))
              >> tag_and_submit k p i)
            u
    unfolding pending sent
    selecting-Fills bgid r =
        let e₁ = written (λ x. record x { request = some r }) (taken p link) u refl e in
        let e₂ =
          written (λ x. record x { flags = k.iosqe_buffer_select ∷ x.flags })
            (record (taken p link) { request = some r }) (prepped p r ∷ u) refl e₁ in
        tag_and_submit-Fills (selecting k bgid r)
          (set_buf_group p (u16 bgid) ∷ or_flags p k.iosqe_buffer_select ∷ prepped p r ∷ u) apart
          (written (λ x. record x { buf_group = some (u16 bgid) })
            (record (taken p link) { request = some r; flags = k.iosqe_buffer_select ∷ link })
            (or_flags p k.iosqe_buffer_select ∷ prepped p r ∷ u) refl e₂)

    -- The same, with the two assignments in the order of the multishot operations.
    pub selecting-Fills' :
        (bgid : ℤ) (r : Prep)
        → Fills
            (some (selecting k bgid r))
            (call (prepped p r)
              >> call (set_buf_group p (u16 bgid))
              >> call (or_flags p k.iosqe_buffer_select)
              >> tag_and_submit k p i)
            u
    unfolding pending sent
    selecting-Fills' bgid r =
        let e₁ = written (λ x. record x { request = some r }) (taken p link) u refl e in
        let e₂ =
          written (λ x. record x { buf_group = some (u16 bgid) })
            (record (taken p link) { request = some r }) (prepped p r ∷ u) refl e₁ in
        tag_and_submit-Fills (selecting k bgid r)
          (or_flags p k.iosqe_buffer_select ∷ set_buf_group p (u16 bgid) ∷ prepped p r ∷ u) apart
          (written (λ x. record x { flags = k.iosqe_buffer_select ∷ x.flags })
            (record (taken p link) { request = some r; buf_group = some (u16 bgid) })
            (set_buf_group p (u16 bgid) ∷ prepped p r ∷ u) refl e₂)

    -- The buffer is a registered one.
    pub registered-Fills :
        (buf_index : ℤ) (r : Prep)
        → Fills
            (some (registered k buf_index r))
            (call (prepped p r)
              >> call (set_buf_index p (u16 buf_index))
              >> call (or_ioprio p k.recvsend_fixed_buf)
              >> tag_and_submit k p i)
            u
    unfolding pending sent
    registered-Fills buf_index r =
        let e₁ = written (λ x. record x { request = some r }) (taken p link) u refl e in
        let e₂ =
          written (λ x. record x { buf_index = some (u16 buf_index) })
            (record (taken p link) { request = some r }) (prepped p r ∷ u) refl e₁ in
        tag_and_submit-Fills (registered k buf_index r)
          (or_ioprio p k.recvsend_fixed_buf ∷ set_buf_index p (u16 buf_index) ∷ prepped p r ∷ u)
          apart
          (written (λ x. record x { ioprio = k.recvsend_fixed_buf ∷ x.ioprio })
            (record (taken p link) { request = some r; buf_index = some (u16 buf_index) })
            (set_buf_index p (u16 buf_index) ∷ prepped p r ∷ u) refl e₂)

    -- The entry is given up.
    pub refused-Fills : Fills none (pure (negsuc 1)) u
    unfolding sent
    refused-Fills = rw e
