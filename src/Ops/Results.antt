-- ===== src/Ops/Results.antt =====
-- What the return value of an operation tells its caller.
use puring.Base.{
  ℕ, ◌≡◌, refl, sym, ap, ◌∙◌, ◌≢◌, inl, inr, ℤ, pos, negsuc, Bool-cases, Option-cases, Option, none,
  some, List, [], ◌∷◌, ◌++◌,
}
use mathlib.Core.Path.{subst}
use mathlib.Core.List.{append_assoc}
use puring.Uring.{Liburing, Trace}
use puring.Uring.Queue.{Entry, pending, left_over, handed_over, sent, NoReuse}
use puring.Timer.{TimeoutParams, is_idle}
use puring.Ops.Request.{Request, Draft, draft, perform}
use puring.Ops.Contract.{Queue, queue, fill, flush, finish, post, second_sqe, earlier, link_entry}
use puring.Ops.Bodies.{taken}
use puring.Ops.Refine.{post-idle, post-linked, post-required, post-optional}
use puring.Ops.Conforms.{perform-Meets}

-- The caller's entry has been put behind what waited before, with the timeout's entry, if there is
-- one, behind it in turn; `submits` of the entries, the oldest, have been handed over, and the
-- others wait on.
pub record Delivered (k : Liburing) (i : ℤ) (d : Option Draft) (a : Option ℕ) (r : ℤ) (q q' : Queue)
    : Type 0 where
  pub draft : Draft
  pub sqe : ℕ
  pub link : List ℕ
  pub before : List Entry
  pub drafted : d ≡ some draft
  pub taken : a ≡ some sqe
  pub submits : ℕ
  pub answered : r ≡ pos submits
  pub kept : q'.waiting ≡ left_over submits (before ++ fill sqe i link draft ∷ q.waiting)
  pub sent_on :
      q'.batches ≡ handed_over submits (before ++ fill sqe i link draft ∷ q.waiting) ∷ q.batches

module _ (k : Liburing) (i : ℤ) (p : ℕ) (link : List ℕ) (before : List Entry) (q : Queue) where
  finish-Delivered :
      (d : Option Draft) (r : ℤ)
      → (finish d p i link before r q).0 ≡ pos 1
      → Delivered k i d (some p) r q (finish d p i link before r q).1
  unfolding flush
  finish-Delivered none r h = cc
  finish-Delivered (some d) (pos n) h = record {
    draft = d;
    sqe = p;
    link = link;
    before = before;
    drafted = refl;
    taken = refl;
    submits = n;
    answered = refl;
    kept = refl;
    sent_on = refl;
  }
  finish-Delivered (some d) (negsuc n) h = cc

module _ (i : ℤ) (p : ℕ) (link : List ℕ) (before : List Entry) (q : Queue) where
  finish-sent :
      (d : Option Draft) (r : ℤ)
      → (finish d p i link before r q).0 ≢ pos 1
      → (finish d p i link before r q).1.batches ≡ q.batches
  unfolding flush
  finish-sent none r h = refl
  finish-sent (some d) (pos n) h = absurd (h refl)
  finish-sent (some d) (negsuc n) h = refl

  finish-waiting :
      (d : Option Draft) (r : ℤ)
      → (finish d p i link before r q).0 ≢ pos 1
      → (left : List Entry) × ((finish d p i link before r q).1.waiting ≡ left ++ q.waiting)
  unfolding flush
  finish-waiting none r h =
      (before ++ taken p link ∷ [], sym (append_assoc before (taken p link ∷ []) q.waiting))
  finish-waiting (some d) (pos n) h = absurd (h refl)
  finish-waiting (some d) (negsuc n) h =
      (before ++ fill p i link d ∷ [], sym (append_assoc before (fill p i link d ∷ []) q.waiting))

module _ (k : Liburing) (d : Option Draft) (i : ℤ) (tp : TimeoutParams) (r : ℤ) (q : Queue) where
  -- The outcomes of the specification: no entry, an entry given up, or the last part.
  pub post-cases :
      (P : Option ℕ → ℤ × Queue → Type 0)
      → P none (negsuc 0, q)
      → ((p : ℕ)
          → P
              (some p)
              (negsuc 0, record q { waiting = taken p (k.iosqe_io_link ∷ []) ∷ q.waiting }))
      → ((p : ℕ) (link : List ℕ) (before : List Entry) → P (some p) (finish d p i link before r q))
      → (a b : Option ℕ) → P a (post k d i tp a b r q)
  unfolding post
  post-cases P nothing given_up filled none b = nothing
  post-cases P nothing given_up filled (some p) b = elim (Bool-cases (is_idle tp)) [
    | inl idle ↦ rw (post-idle k d i tp p (some p) b r q refl idle) (filled p [] [])
    | inr busy ↦ elim (Option-cases b) [
      | inl m ↦ elim (Bool-cases tp.is_required) [
        | inl required ↦
            rw (post-required k d i tp p (some p) b r q refl busy m required) (given_up p)
        | inr optional ↦
            rw (post-optional k d i tp p (some p) b r q refl busy m optional)
              (filled p (k.iosqe_io_link ∷ []) [])
      ]
      | inr (s, m) ↦
          rw (post-linked k d i tp p (some p) b r q refl busy s m)
            (filled p (k.iosqe_io_link ∷ []) (link_entry s tp ∷ []))
    ]
  ]

module _ (k : Liburing) (fresh : NoReuse k) (i : ℤ) (tp : TimeoutParams) (t : Trace)
    (o : Request) where
  -- An operation that returns 1 has put its entry, complete and tagged with the index of its
  -- request, behind all that waited in the submission queue, and io_uring_submit has answered a
  -- number: the kernel has been handed that many entries of the queue, the oldest, and the others
  -- are left waiting, the operation's own among them where the number falls short of it. This is
  -- provided that liburing hands out no entry twice before it is submitted.
  pub perform-Delivered :
      (perform k o i tp t).0 ≡ pos 1
      → Delivered k i
          (draft k o)
          (k.next_sqe t)
          (k.submit_result (earlier (perform k o i tp t).1))
          (queue t)
          (queue (perform k o i tp t).1)
  perform-Delivered h =
      let e = perform-Meets k fresh i tp t o in
      let r = k.submit_result (earlier (perform k o i tp t).1) in
      subst (Delivered k i (draft k o) (k.next_sqe t) r (queue t)) (sym (ap (λ x. x.1) e)) (
        post-cases k (draft k o) i tp r (queue t)
          (λ a x. x.0 ≡ pos 1 → Delivered k i (draft k o) a r (queue t) x.1) (λ h. cc) (λ p h. cc)
          (λ p link before. finish-Delivered k i p link before (queue t) (draft k o) _)
          (k.next_sqe t) (second_sqe k t) (sym (ap (λ x. x.0) e) ∙ h))

  -- An operation that returns anything else has handed nothing to the kernel, provided the same of
  -- liburing.
  pub sent-perform : (perform k o i tp t).0 ≢ pos 1 → sent (perform k o i tp t).1 ≡ sent t
  sent-perform h =
      let e = perform-Meets k fresh i tp t o in
      ap (λ x. x.1.batches) e
      ∙ post-cases k (draft k o) i tp _ (queue t) (λ a x. x.0 ≢ pos 1 → x.1.batches ≡ sent t)
          (λ h. refl) (λ p h. refl)
          (λ p link before. finish-sent i p link before (queue t) (draft k o) _) (k.next_sqe t)
          (second_sqe k t) (λ one. h (ap (λ x. x.0) e ∙ one))

  -- What it leaves of its own in the submission queue stands behind all that waited.
  pub waiting-perform :
      (perform k o i tp t).0 ≢ pos 1
      → (left : List Entry) × (pending (perform k o i tp t).1 ≡ left ++ pending t)
  waiting-perform h =
      let e = perform-Meets k fresh i tp t o in
      let (left, waits) =
        post-cases k (draft k o) i tp _ (queue t)
          (λ a x. x.0 ≢ pos 1 → (left : List Entry) × (x.1.waiting ≡ left ++ pending t))
          (λ h. ([], refl)) (λ p h. (taken p (k.iosqe_io_link ∷ []) ∷ [], refl))
          (λ p link before. finish-waiting i p link before (queue t) (draft k o) _) (k.next_sqe t)
          (second_sqe k t) (λ one. h (ap (λ x. x.0) e ∙ one)) in
      (left, ap (λ x. x.1.waiting) e ∙ waits)
