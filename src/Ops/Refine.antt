-- ===== src/Ops/Refine.antt =====
-- Every operation of src/ops meets the specification of Ops/Contract.
use puring.Base.{
  ℕ, ◌≡◌, refl, sym, ap, ◌∙◌, ℤ, pos, negsuc, is_neg, true, false, Bool-cases, Option-cases, inl,
  inr, Option, none, some, List, [], ◌∷◌, ◌++◌, arith, if◌then◌else◌,
}
use puring.Uring.{
  Liburing, Prep, Trace, Code, ◌>>=◌, pure, got_sqe, no_sqe, or_flags, prepped, get_sqe, create_sqe,
}
use puring.Uring.Queue.{Entry, pending, sent, NoReuse}
use puring.Timer.{
  TimeoutParams, is_idle, timespec, link_timeout, timeout, time_and_run, sqe_with_optional_timeout,
}
use puring.Ops.Request.{Draft}
use puring.Ops.Contract.{Queue, queue, finish, post, second_sqe, earlier, link_entry}
use puring.Ops.Bodies.{Apart, taken, Fills}

-- A bind whose first part is known to return.
bind-eq :
    {A : Type 0} (m : Code A) (f : A → Code ℤ) (t : Trace) {a : A} {t' : Trace}
    → m t ≡ (a, t')
    → (m >>= f) t ≡ f a t'
bind-eq m f t e = ap (λ x. f x.0 x.1) e

module _ (k : Liburing) (t : Trace) where
  get_sqe-none : k.next_sqe t ≡ none → get_sqe k t ≡ (none, no_sqe ∷ t)
  unfolding get_sqe
  get_sqe-none e = rw (e, get_sqe)

  get_sqe-some : (p : ℕ) → k.next_sqe t ≡ some p → get_sqe k t ≡ (some p, got_sqe p ∷ t)
  unfolding get_sqe
  get_sqe-some p e = rw (e, get_sqe)

  module _ (tp : TimeoutParams) (body : ℕ → Code ℤ) where
    macro_none :
        k.next_sqe t ≡ none → sqe_with_optional_timeout k (some tp) body t ≡ (negsuc 0, no_sqe ∷ t)
    unfolding sqe_with_optional_timeout create_sqe
    macro_none e = bind-eq (create_sqe k) (time_and_run k (some tp) body) t (get_sqe-none e)

    macro_some :
        (p : ℕ) (r : ℤ) (u : Trace)
        → k.next_sqe t ≡ some p
        → timeout k p (some tp) (got_sqe p ∷ t) ≡ (r, u)
        → sqe_with_optional_timeout k (some tp) body t
          ≡ (if is_neg r then pure (negsuc 0) else body p) u
    unfolding sqe_with_optional_timeout create_sqe
    macro_some p r u e f =
        bind-eq (create_sqe k) (time_and_run k (some tp) body) t (get_sqe-some p e)
        ∙ bind-eq (timeout k p (some tp)) (λ r'. if is_neg r' then pure (negsuc 0) else body p) _ f

module _ (k : Liburing) (tp : TimeoutParams) (p : ℕ) (t : Trace) where
  abbrev after_link : Trace
  after_link = or_flags p k.iosqe_io_link ∷ t

  timeout-idle : is_idle tp ≡ true → timeout k p (some tp) t ≡ (pos 0, t)
  unfolding timeout
  timeout-idle e = rw (e, timeout)

  module _ (busy : is_idle tp ≡ false) where
    timeout-missing :
        k.next_sqe after_link ≡ none
        → timeout k p (some tp) t
          ≡ (if tp.is_required then negsuc 0 else pos 0, no_sqe ∷ after_link)
    unfolding timeout
    timeout-missing m =
        rw (busy, timeout) (bind-eq (get_sqe k) (link_timeout k tp) after_link (get_sqe-none k _ m))

    timeout-linked :
        (q : ℕ)
        → k.next_sqe after_link ≡ some q
        → timeout k p (some tp) t ≡ (
          pos 0,
          prepped q (Prep.link_timeout (timespec tp.sec tp.nsec) 0) ∷ got_sqe q ∷ after_link,
        )
    unfolding timeout
    timeout-linked q m =
        rw (busy, timeout)
          (bind-eq (get_sqe k) (link_timeout k tp) after_link (get_sqe-some k _ q m))

-- What is claimed of the result and the trace of an operation that began at `t`.
abbrev pub Meets : Liburing → Option Draft → ℤ → TimeoutParams → Trace → ℤ × Trace → Type 0
Meets k d i tp t (c, t') =
    (c, queue t')
    ≡ post k d i tp (k.next_sqe t) (second_sqe k t) (k.submit_result (earlier t')) (queue t)

module _ (k : Liburing) (d : Option Draft) (i : ℤ) (tp : TimeoutParams) (p : ℕ) (a b : Option ℕ)
    (r : ℤ) (q : Queue) (ha : a ≡ some p) where
  pub post-idle : is_idle tp ≡ true → post k d i tp a b r q ≡ finish d p i [] [] r q
  unfolding post
  post-idle idle = rw (ha, idle)

  module _ (busy : is_idle tp ≡ false) where
    pub post-linked :
        (s : ℕ)
        → b ≡ some s
        → post k d i tp a b r q ≡ finish d p i (k.iosqe_io_link ∷ []) (link_entry s tp ∷ []) r q
    unfolding post
    post-linked s hb = rw (ha, busy, hb, post)

    pub post-required :
        b ≡ none
        → tp.is_required ≡ true
        → post k d i tp a b r q
          ≡ (negsuc 0, record q { waiting = taken p (k.iosqe_io_link ∷ []) ∷ q.waiting })
    unfolding post
    post-required hb required = rw (ha, busy, hb, required)

    pub post-optional :
        b ≡ none
        → tp.is_required ≡ false
        → post k d i tp a b r q ≡ finish d p i (k.iosqe_io_link ∷ []) [] r q
    unfolding post
    post-optional hb optional = rw (ha, busy, hb, optional)

module _ (k : Liburing) (fresh : NoReuse k) (d : Option Draft) (i : ℤ) (tp : TimeoutParams)
    (t : Trace) (body : ℕ → Code ℤ)
    (fills : (p : ℕ) (link : List ℕ) (before rest : List Entry) (u : Trace)
      → Apart p before
      → pending u ≡ before ++ taken p link ∷ rest
      → Fills k p i link before rest d (body p) u) where
  abbrev Goal : Type 0
  Goal = Meets k d i tp t (sqe_with_optional_timeout k (some tp) body t)

  none-Meets : k.next_sqe t ≡ none → Goal
  unfolding post pending sent
  none-Meets e = rw (macro_none k t tp body e) (rw e)

  module _ (p : ℕ) (e : k.next_sqe t ≡ some p) where
    abbrev linked : Trace
    linked = or_flags p k.iosqe_io_link ∷ got_sqe p ∷ t

    second-eq : second_sqe k t ≡ k.next_sqe linked
    second-eq = rw (e, second_sqe)

    idle-Meets : is_idle tp ≡ true → Goal
    unfolding pending sent
    idle-Meets idle = rw (macro_some k t tp body p (pos 0) _ e (timeout-idle k tp p _ idle)) (
        fills p [] [] (pending t) (got_sqe p ∷ t) tt refl
        ∙ sym (post-idle k d i tp p _ _ _ _ e idle))

    module _ (busy : is_idle tp ≡ false) where
      linked-Meets : (q : ℕ) → k.next_sqe linked ≡ some q → Goal
      unfolding pending sent
      linked-Meets q m =
          rw (macro_some k t tp body p (pos 0) _ e (timeout-linked k tp p _ busy q m)) (
            fills p (k.iosqe_io_link ∷ []) (link_entry q tp ∷ []) (pending t) _
              (fresh t p q _ e m, tt) (ground arith)
            ∙ sym (post-linked k d i tp p _ _ _ _ e busy q (second-eq ∙ m)))

      missing-Meets : k.next_sqe linked ≡ none → Goal
      unfolding pending sent
      missing-Meets m = elim (Bool-cases tp.is_required) [
        | inl required ↦
            rw
              (macro_some k t tp body p (negsuc 0) (no_sqe ∷ linked) e
                (timeout-missing k tp p _ busy m ∙ rw required))
              (ground arith
                ∙ sym (post-required k d i tp p _ _ _ _ e busy (second-eq ∙ m) required))
        | inr optional ↦
            rw
              (macro_some k t tp body p (pos 0) (no_sqe ∷ linked) e
                (timeout-missing k tp p _ busy m ∙ rw optional))
              (fills p (k.iosqe_io_link ∷ []) [] (pending t) (no_sqe ∷ linked) tt (ground arith)
                ∙ sym (post-optional k d i tp p _ _ _ _ e busy (second-eq ∙ m) optional))
      ]

  -- An operation whose body fills in its entry meets the specification.
  pub macro-Meets : Goal
  macro-Meets = elim (Option-cases (k.next_sqe t)) [
    | inl e ↦ none-Meets e
    | inr (p, e) ↦ elim (Bool-cases (is_idle tp)) [
      | inl idle ↦ idle-Meets p e idle
      | inr busy ↦ elim (Option-cases (k.next_sqe (or_flags p k.iosqe_io_link ∷ got_sqe p ∷ t))) [
        | inl m ↦ missing-Meets p e busy m
        | inr (q, m) ↦ linked-Meets p e busy q m
      ]
    ]
  ]
