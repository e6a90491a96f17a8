-- ===== src/Ops/Stray.antt =====
-- What is left of an entry that an operation gives up after having taken it.
use puring.Base.{ℕ, ◌≡◌, refl, ap, ◌∙◌, ℤ, negsuc, none, some, true, false, ◌||◌, [], ◌∷◌}
use puring.Uring.{Liburing, Trace}
use puring.Uring.Queue.{NoReuse, blank, pending, sent}
use puring.Timer.{TimeoutParams, is_idle}
use puring.Ops.Words.{eqb_ℤ}
use puring.Ops.Request.{socket, draft, perform}
use puring.Ops.Contract.{queue, finish, second_sqe, earlier}
use puring.Ops.Conforms.{perform-Meets}
use puring.Ops.Refine.{post-idle}

module _ (k : Liburing) (fresh : NoReuse k) (domain type i : ℤ) (tp : TimeoutParams) (t : Trace)
    (p : ℕ) (unsupported : (eqb_ℤ domain k.af_inet || eqb_ℤ domain k.af_inet6) ≡ false)
    (idle : is_idle tp ≡ true) (found : k.next_sqe t ≡ some p) where
  no_draft : draft k (socket domain type) ≡ none
  unfolding draft
  no_draft = rw unsupported refl

  -- The operation for a socket of another family fails with its entry taken: it returns -2, and the
  -- entry stays in the submission queue, blank.
  pub prep_socket-stray :
      ((perform k (socket domain type) i tp t).0 ≡ negsuc 1)
      × (pending (perform k (socket domain type) i tp t).1 ≡ blank p ∷ pending t)
      × (sent (perform k (socket domain type) i tp t).1 ≡ sent t)
  prep_socket-stray =
      let e = perform-Meets k fresh i tp t (socket domain type) in
      let r = k.submit_result (earlier (perform k (socket domain type) i tp t).1) in
      let idle_post =
        post-idle k (draft k (socket domain type)) i tp p (k.next_sqe t) (second_sqe k t) r
          (queue t) found idle in
      let all = e ∙ idle_post ∙ ap (λ d. finish d p i [] [] r (queue t)) no_draft in
      (ap (λ x. x.0) all, ap (λ x. x.1.waiting) all, ap (λ x. x.1.batches) all)
