-- ===== src/Submit/Transfers.antt =====
-- The methods of a socket with a payload, from their guards to their answers.
use puring.Base.{ℕ, ◌≡◌, refl, ◌∙◌, ℤ, pos, Option, none, some, Bool, false}
use puring.Uring.{Liburing, Code}
use puring.Uring.Queue.{NoReuse}
use puring.Buffers.{LinearBuffer, is_selecting}
use puring.Timer.{TimeoutParams}
use puring.Store.{Store, free_payload?, free?}
use puring.Registry.{StreamStrategy, oneshot, Opcode, Entry}
use puring.Registry
use puring.Registry.Valid.{IsValid}
use puring.Dispatch.{normal_transfer, linear_of}
use puring.Dispatch.Sockets.{recv_dispatcher, send_dispatcher}
use puring.Ops.Words.{u32}
use puring.Ops.Request.{Request, perform}
use puring.Submit.{World, Run, socket_closed, socket_failure}
use puring.Submit.Outcome.{registered}
use puring.Submit.Guards.{Situation, IsReady, guarded-cases, with_future-cases, with_payload-cases}
use puring.Submit.Address.{Libc, serialize_address-Serialized, get_socket_size}
use puring.Submit.Sockets.{
  socket_entry, socket_tail, pointer, transfer_method, socket_send, socket_recv,
}
use puring.Submit.Messages.{
  sendto_payload, recvfrom_payload, with_message, socket_sendto, socket_recvfrom,
}
use puring.Submit.SocketMethods.{with_address-cases}
use puring.Submit.Answered.{
  Answers, unchanged, memory_only, the_future, turn_away, submit-Answers, checked_tail-Gives,
}

module _ (k : Liburing) (fresh : NoReuse k) (c : Situation) (sock : ℕ) (tp : TimeoutParams)
    (w : World) (v : IsValid w.registry) (p : ℕ) (has_payload : c.payload ≡ some p)
    (b : LinearBuffer) (linear : linear_of (w.store.payloads p) ≡ some b) where
  abbrev fd : ℤ
  fd = (w.store.sockets sock).sock_fd

  abbrev pub TransferAnswers : (ℕ → Entry) → Request → Run → Type 0
  TransferAnswers e o = Answers k (IsReady c (w.store.sockets sock).closed) e (λ i. o) the_future w

  -- The slot of a request with a payload or without.
  abbrev pub payload_entry : Option ℕ → Opcode → StreamStrategy → ℕ → Entry
  payload_entry payload opcode stream future = socket_entry future payload stream opcode sock

  transfer_method-Answers :
      (opcode : Opcode) (stream : StreamStrategy) (o : Request)
      (op : ℕ → ℤ → Store → Option (Code ℤ × Store))
      → ((i : ℤ) (future : ℕ)
          → let s = registered (payload_entry (some p) opcode stream future) w.store in
            op p i s ≡ some (perform k o i tp, s))
      → TransferAnswers
          (payload_entry (some p) opcode stream)
          o
          (transfer_method c sock opcode stream op w)
  unfolding transfer_method
  transfer_method-Answers opcode stream o op runs =
      let e = payload_entry (some p) opcode stream in
      let P = TransferAnswers e o in
      guarded-cases P c w socket_closed (w.store.sockets sock).closed _
        (λ x. turn_away k fresh tp w v _ _ _ _ x w (unchanged w))
        λ (on, running, is_open, good).
          with_payload-cases P c w c.payload _ _
            (turn_away k fresh tp w v _ _ _ _ _ w (unchanged w))
            λ payload made.
              (let same : payload ≡ p = cc in
                rw same (
                  with_future-cases P c w c.future _ _
                    (turn_away k fresh tp w v _ _ _ _ _ _ (memory_only w _))
                    λ future found.
                      submit-Answers k fresh tp w v _ e (λ i. o) the_future future
                        (socket_tail future (free_payload? (some p) false)) (op p)
                        (λ i. registered (e future) w.store) (on, running, is_open, good, found)
                        (checked_tail-Gives socket_failure future _ (λ s x. refl))
                        (λ i. runs i future) (λ i x. refl) (λ i t. refl)))

  sendto-runs :
      (future addr len : ℕ) (is_poll_first : Bool) (i : ℤ)
      → let s = registered (payload_entry none Registry.sendmsg oneshot future) w.store in
        sendto_payload k c sock tp fd p addr len is_poll_first i s
        ≡ some (
          perform k (Request.sendto fd b.buffer (u32 (pos b.len)) addr len is_poll_first) i tp,
          free? (some addr) s,
        )
  unfolding sendto_payload perform
  sendto-runs future addr len is_poll_first i = rw linear refl

  sendto-Answers :
      (libc : Libc) (given host : Option ℕ) (port domain : ℤ) (is_poll_first : Bool)
      → TransferAnswers
          (payload_entry none Registry.sendmsg oneshot)
          (Request.sendto fd b.buffer
            (u32 (pos b.len))
            (pointer given)
            (get_socket_size k libc domain)
            is_poll_first)
          (socket_sendto k c sock tp libc given host port domain is_poll_first w)
  unfolding socket_sendto
  sendto-Answers libc given host port domain is_poll_first =
      let len = get_socket_size k libc domain in
      let e = payload_entry none Registry.sendmsg oneshot in
      let o = Request.sendto fd b.buffer (u32 (pos b.len)) (pointer given) len is_poll_first in
      let P = TransferAnswers e o in
      guarded-cases P c w socket_closed (w.store.sockets sock).closed _
        (λ x. turn_away k fresh tp w v _ _ _ _ x w (unchanged w))
        λ (on, running, is_open, good).
          with_address-cases P w k libc host port domain given _ _
            (serialize_address-Serialized k libc port w.store domain given host)
            (λ x freed. turn_away k fresh tp w v _ _ _ _ x _ (memory_only w _))
            λ addr allocated.
              with_payload-cases P c w c.payload _ _
                (turn_away k fresh tp w v _ _ _ _ _ _ (memory_only w _))
                λ payload made.
                  (let same : payload ≡ p = cc in
                    rw same (
                      with_future-cases P c w c.future _ _
                        (turn_away k fresh tp w v _ _ _ _ _ _ (memory_only w _))
                        λ future found.
                          submit-Answers k fresh tp w v _ e (λ i. o) the_future future
                            (socket_tail future
                              (λ s. free_payload? (some p) false (free? (some addr) s)))
                            _ (λ i. free? (some addr) (registered (e future) w.store))
                            (on, running, is_open, good, found)
                            (checked_tail-Gives socket_failure future _ (λ s x. refl))
                            (λ i. sendto-runs future addr len is_poll_first i ∙ (rw allocated refl))
                            (λ i x. refl) (λ i t. refl)))

  abbrev pub recvfrom_entry : Option ℕ → Option ℕ → ℕ → Entry
  recvfrom_entry given allocated future =
      record (payload_entry (some p) Registry.recvmsg oneshot future) {
        addr = given;
        msghdr = allocated;
      }

  recvfrom-runs :
      (given allocated : Option ℕ) (future addr len : ℕ) (is_poll_first : Bool) (i : ℤ)
      → let s = registered (recvfrom_entry given allocated future) w.store in
        recvfrom_payload k c sock tp fd p addr len is_poll_first i s
        ≡ some (perform k (Request.recvfrom fd b.buffer b.len addr len is_poll_first) i tp, s)
  unfolding recvfrom_payload perform
  recvfrom-runs given allocated future addr len is_poll_first i = rw linear refl

  recvfrom-Answers :
      (libc : Libc) (given allocated host : Option ℕ) (port domain : ℤ) (is_poll_first : Bool)
      → TransferAnswers
          (recvfrom_entry given allocated)
          (Request.recvfrom fd b.buffer b.len
            (pointer given)
            (get_socket_size k libc domain)
            is_poll_first)
          (socket_recvfrom k c sock tp libc given allocated host port domain is_poll_first w)
  unfolding socket_recvfrom with_message
  recvfrom-Answers libc given none host port domain is_poll_first =
      let o =
        Request.recvfrom fd b.buffer b.len (pointer given) (get_socket_size k libc domain)
          is_poll_first in
      let P = TransferAnswers (recvfrom_entry given none) o in
      guarded-cases P c w socket_closed (w.store.sockets sock).closed _
        (λ x. turn_away k fresh tp w v _ _ _ _ x w (unchanged w))
        λ _.
          with_address-cases P w k libc host port domain given _ _
            (serialize_address-Serialized k libc port w.store domain given host)
            (λ x freed. turn_away k fresh tp w v _ _ _ _ x _ (memory_only w _))
            λ addr allocated.
              with_payload-cases P c w c.payload _ _
                (turn_away k fresh tp w v _ _ _ _ _ _ (memory_only w _))
                λ payload made. turn_away k fresh tp w v _ _ _ _ _ _ (memory_only w _)
  recvfrom-Answers libc given (some msg) host port domain is_poll_first =
      let len = get_socket_size k libc domain in
      let received : ℕ → Request =
        λ addr. Request.recvfrom fd b.buffer b.len addr len is_poll_first in
      let P = TransferAnswers (recvfrom_entry given (some msg)) (received (pointer given)) in
      guarded-cases P c w socket_closed (w.store.sockets sock).closed _
        (λ x. turn_away k fresh tp w v _ _ _ _ x w (unchanged w))
        λ (on, running, is_open, good).
          with_address-cases P w k libc host port domain given _ _
            (serialize_address-Serialized k libc port w.store domain given host)
            (λ x freed. turn_away k fresh tp w v _ _ _ _ x _ (memory_only w _))
            λ addr allocated.
              with_payload-cases P c w c.payload _ _
                (turn_away k fresh tp w v _ _ _ _ _ _ (memory_only w _))
                λ payload made.
                  (let same : payload ≡ p = cc in
                    rw (same, allocated)
                      (with_future-cases
                        (TransferAnswers (recvfrom_entry (some addr) (some msg)) (received addr)) c
                        w c.future _ _ (turn_away k fresh tp w v _ _ _ _ _ _ (memory_only w _))
                        λ future found.
                          submit-Answers k fresh tp w v _ (recvfrom_entry (some addr) (some msg))
                            (λ i. received addr) the_future future _ _
                            (λ i. registered (recvfrom_entry (some addr) (some msg) future) w.store)
                            (on, running, is_open, good, found)
                            (checked_tail-Gives socket_failure future _ (λ s x. refl))
                            (λ i.
                              recvfrom-runs (some addr) (some msg) future addr len is_poll_first i)
                            (λ i x. refl) (λ i t. refl)))

  -- The methods send, in the normal transfer mode, recv, sendto and recvfrom of a socket, on a
  -- valid registry, with a payload that has a buffer, which the kernel is not to pick: each finishes
  -- without a call of `abort`, whatever memory there is. It raises and leaves the registry, the kernel and the reference counts
  -- as they were, or the guards have let it through and its request, on the buffer of the payload,
  -- is accepted, or refused, so that only its future has lost a reference. Liburing is taken to hand
  -- out no entry twice before it is submitted.
  pub transfer_methods-Answers :
      is_selecting (w.store.payloads p).mode ≡ false
      → (libc : Libc) (given allocated host : Option ℕ) (port domain : ℤ) (stream : StreamStrategy)
        (is_poll_first : Bool)
      → let size = get_socket_size k libc domain in
        TransferAnswers
          (payload_entry (some p) Registry.send oneshot)
          (Request.send fd b.buffer (u32 (pos b.len)) is_poll_first)
          (socket_send k c sock tp normal_transfer is_poll_first w)
        × TransferAnswers
            (payload_entry (some p) Registry.recv stream)
            (Request.recv fd b.buffer b.len is_poll_first)
            (socket_recv k c sock tp stream is_poll_first w)
        × TransferAnswers
            (payload_entry none Registry.sendmsg oneshot)
            (Request.sendto fd b.buffer (u32 (pos b.len)) (pointer given) size is_poll_first)
            (socket_sendto k c sock tp libc given host port domain is_poll_first w)
        × TransferAnswers
            (recvfrom_entry given allocated)
            (Request.recvfrom fd b.buffer b.len (pointer given) size is_poll_first)
            (socket_recvfrom k c sock tp libc given allocated host port domain is_poll_first w)
  unfolding socket_send socket_recv send_dispatcher recv_dispatcher perform
  transfer_methods-Answers unpicked libc given allocated host port domain stream is_poll_first = (
    transfer_method-Answers Registry.send oneshot _ _ (λ i future. rw linear refl),
    transfer_method-Answers Registry.recv stream _ _ (λ i future. rw (unpicked, linear) refl),
    sendto-Answers libc given host port domain is_poll_first,
    recvfrom-Answers libc given allocated host port domain is_poll_first,
  )
