-- ===== src/Submit/SocketMethods.antt =====
-- The methods of a socket without a payload, from their guards to their answers.
use puring.Base.{ℕ, ◌≡◌, refl, ℤ, pos, Option, none, some, true, List}
use puring.Uring.{Liburing}
use puring.Uring.Queue.{NoReuse}
use puring.Buffers.{Freed}
use puring.Timer.{TimeoutParams}
use puring.Store.{Store, free?}
use puring.Registry.{StreamStrategy, oneshot, multishot, Opcode, Entry}
use puring.Registry
use puring.Registry.Valid.{IsValid}
use puring.Registry.RoundTrip.{refs-decref?}
use puring.Dispatch.Sockets.{accept_dispatcher}
use puring.Ops.Request.{Request, perform}
use puring.Submit.{
  World, Run, Failure, refused, socket_closed, no_memory, bad_address, unexplained, socket_failure,
}
use puring.Submit.Outcome.{registered, Gives}
use puring.Submit.Guards.{Situation, IsReady, guarded-cases, with_future-cases}
use puring.Submit.Address.{
  Libc, Address, Serialized, handed_out, not_allocated, not_read, no_family, with_address,
  serialize_address-Serialized, get_socket_size,
}
use puring.Submit.Sockets.{
  socket_entry, socket_tail, close_tail, set_closed, pointer, with_memory, plain_method,
  addressed_method, closing, socket_listen, socket_bind, socket_connect, socket_accept,
  socket_close,
}
use puring.Submit.Answered.{
  Answers, unchanged, memory_only, the_future, turn_away, submit-Answers, checked_tail-Gives,
}

module _ (P : Run → Type 0) (w : World) where
  -- The two ways out of the making of an address.
  pub with_address-cases :
      (k : Liburing) (libc : Libc) (host : Option ℕ) (port domain : ℤ) (given : Option ℕ)
      (made : Address × Store) (next : ℕ → World → Run)
      → Serialized k libc host port domain w.store given made
      → ((x : Failure) (freed : List Freed)
          → P (some (refused x, record w { store = record w.store { freed = freed } })))
      → ((addr : ℕ) → given ≡ some addr → P (next addr w))
      → P (with_address made w next)
  unfolding with_address
  with_address-cases k libc host port domain given made next (handed_out addr _ _ _ _) away go =
      go addr refl
  with_address-cases k libc host port domain given made next not_allocated away go =
      away no_memory w.store.freed
  with_address-cases k libc host port domain given made next (not_read addr _ _ _ _ _) away go =
      away bad_address _
  with_address-cases k libc host port domain given made next (no_family addr _ _) away go =
      away unexplained _

  pub with_memory-cases :
      (given : Option ℕ) (next : ℕ → Run)
      → P (some (refused no_memory, w))
      → ((p : ℕ) → given ≡ some p → P (next p))
      → P (with_memory given w next)
  unfolding with_memory
  with_memory-cases none next away go = away
  with_memory-cases (some p) next away go = go p refl

close_tail-Gives : (future sock : ℕ) → Gives (close_tail future sock) (the_future future)
close_tail-Gives future sock = record {
  full = λ s x. refs-decref? x (some future) s;
  failed = λ s x. refs-decref? x (some future) s;
  kept = λ s x. refl;
}

-- The accept that a strategy asks for.
abbrev pub accept_request : StreamStrategy → ℤ → ℕ → ℕ → Request
accept_request oneshot fd addr len = Request.accept fd addr len (pos 0)
accept_request multishot fd addr len = Request.accept_multishot fd addr len (pos 0)

module _ (k : Liburing) (fresh : NoReuse k) (c : Situation) (sock : ℕ) (tp : TimeoutParams)
    (w : World) (v : IsValid w.registry) where
  abbrev fd : ℤ
  fd = (w.store.sockets sock).sock_fd

  -- What the method of a slot and a request answers.
  abbrev pub SocketAnswers : (ℕ → Entry) → Request → Run → Type 0
  SocketAnswers e o = Answers k (IsReady c (w.store.sockets sock).closed) e (λ i. o) the_future w

  abbrev pub plain_entry : Opcode → ℕ → Entry
  plain_entry opcode future = socket_entry future none oneshot opcode sock

  plain_method-Answers :
      (opcode : Opcode) (make : ℤ → Request)
      → SocketAnswers
          (plain_entry opcode)
          (make fd)
          (plain_method c sock opcode (λ i fd. perform k (make fd) i tp) w)
  unfolding plain_method
  plain_method-Answers opcode make =
      let P = SocketAnswers (plain_entry opcode) (make fd) in
      guarded-cases P c w socket_closed (w.store.sockets sock).closed _
        (λ x. turn_away k fresh tp w v _ _ _ _ x w (unchanged w))
        λ (on, running, is_open, good).
          with_future-cases P c w c.future _ _ (turn_away k fresh tp w v _ _ _ _ _ w (unchanged w))
            λ future made.
              submit-Answers k fresh tp w v _ (plain_entry opcode) (λ i. make fd) the_future future
                (socket_tail future (λ s. s)) _
                (λ i. registered (plain_entry opcode future) w.store)
                (on, running, is_open, good, made)
                (checked_tail-Gives socket_failure future _ (λ s x. refl)) (λ i. refl) (λ i x. refl)
                (λ i t. refl)

  addressed_method-Answers :
      (libc : Libc) (opcode : Opcode) (make : ℤ → ℕ → ℕ → Request) (given host : Option ℕ)
      (port : ℤ)
      → SocketAnswers
          (plain_entry opcode)
          (make fd (pointer given) (get_socket_size k libc (w.store.sockets sock).domain))
          (addressed_method k libc c sock opcode
            (λ i fd addr addrlen. perform k (make fd addr addrlen) i tp)
            given
            host
            port
            w)
  unfolding addressed_method
  addressed_method-Answers libc opcode make given host port =
      let size = get_socket_size k libc (w.store.sockets sock).domain in
      let P = SocketAnswers (plain_entry opcode) (make fd (pointer given) size) in
      guarded-cases P c w socket_closed (w.store.sockets sock).closed _
        (λ x. turn_away k fresh tp w v _ _ _ _ x w (unchanged w))
        λ (on, running, is_open, good).
          with_address-cases P w k libc host port _ given _ _
            (serialize_address-Serialized k libc port w.store (w.store.sockets sock).domain given
              host)
            (λ x freed. turn_away k fresh tp w v _ _ _ _ x _ (memory_only w _))
            λ addr allocated.
              with_future-cases P c w c.future _ _
                (turn_away k fresh tp w v _ _ _ _ _ _ (memory_only w _))
                λ future made.
                  submit-Answers k fresh tp w v _ (plain_entry opcode)
                    (λ i. make fd (pointer given) size) the_future future
                    (socket_tail future (free? (some addr))) _
                    (λ i. free? (some addr) (registered (plain_entry opcode future) w.store))
                    (on, running, is_open, good, made)
                    (checked_tail-Gives socket_failure future _ (λ s x. refl))
                    (λ i. rw allocated refl) (λ i x. refl) (λ i t. refl)

  close-Answers :
      SocketAnswers
        (plain_entry Registry.close)
        (Request.close_socket fd)
        (socket_close k c sock tp w)
  unfolding socket_close closing perform
  close-Answers =
      let P = SocketAnswers (plain_entry Registry.close) (Request.close_socket fd) in
      guarded-cases P c w socket_closed (w.store.sockets sock).closed _
        (λ x. turn_away k fresh tp w v _ _ _ _ x w (unchanged w))
        λ (on, running, is_open, good).
          with_future-cases P c w c.future _ _ (turn_away k fresh tp w v _ _ _ _ _ w (unchanged w))
            λ future made.
              submit-Answers k fresh tp w v _ (plain_entry Registry.close)
                (λ i. Request.close_socket fd) the_future future (close_tail future sock) _
                (λ i. set_closed sock true (registered (plain_entry Registry.close future) w.store))
                (on, running, is_open, good, made) (close_tail-Gives future sock) (λ i. refl)
                (λ i x. refl) (λ i t. refl)

  abbrev pub accept_entry : StreamStrategy → Option ℕ → ℕ → Entry
  accept_entry stream peer_addr future =
      record (socket_entry future none stream Registry.accept sock) { addr = peer_addr }

  accept-runs :
      (stream : StreamStrategy) (i : ℤ) (addr len : ℕ)
      → accept_dispatcher k fd stream i addr len tp
        ≡ perform k (accept_request stream fd addr len) i tp
  unfolding accept_dispatcher perform
  accept-runs oneshot i addr len = refl
  accept-runs multishot i addr len = refl

  accept-Answers :
      (stream : StreamStrategy) (addrlen peer_addr : Option ℕ)
      → SocketAnswers
          (accept_entry stream peer_addr)
          (accept_request stream fd (pointer peer_addr) (pointer addrlen))
          (socket_accept k c sock tp stream addrlen peer_addr w)
  unfolding socket_accept
  accept-Answers stream addrlen peer_addr =
      let o = accept_request stream fd (pointer peer_addr) (pointer addrlen) in
      let P = SocketAnswers (accept_entry stream peer_addr) o in
      guarded-cases P c w socket_closed (w.store.sockets sock).closed _
        (λ x. turn_away k fresh tp w v _ _ _ _ x w (unchanged w))
        λ (on, running, is_open, good).
          with_future-cases P c w c.future _ _ (turn_away k fresh tp w v _ _ _ _ _ w (unchanged w))
            λ future made.
              with_memory-cases P w addrlen _ (turn_away k fresh tp w v _ _ _ _ _ w (unchanged w))
                λ len allocated.
                  submit-Answers k fresh tp w v _ (accept_entry stream peer_addr) (λ i. o)
                    the_future future (socket_tail future (free? (some len))) _
                    (λ i. registered (accept_entry stream peer_addr future) w.store)
                    (on, running, is_open, good, made)
                    (checked_tail-Gives socket_failure future _ (λ s x. refl))
                    (λ i. rw (allocated, accept-runs stream i (pointer peer_addr) len) refl)
                    (λ i x. refl) (λ i t. refl)

  -- Each of the methods listen, bind, connect, accept and close of a socket, on a valid registry,
  -- finishes without a call of `abort`, whatever memory there is and whatever `inet_pton` answers:
  -- it raises and leaves the registry, the kernel and the reference counts as they were, or the
  -- guards have let it through and its request is accepted, or refused, so that only its future has
  -- lost a reference. Liburing is taken to hand out no entry twice before it is submitted.
  pub socket_methods-Answers :
      (libc : Libc) (backlog : ℤ) (given host : Option ℕ) (port : ℤ) (stream : StreamStrategy)
      (addrlen peer_addr : Option ℕ)
      → let size = get_socket_size k libc (w.store.sockets sock).domain in
        SocketAnswers
          (plain_entry Registry.listen)
          (Request.listen fd backlog)
          (socket_listen k c sock tp backlog w)
        × SocketAnswers
            (plain_entry Registry.bind)
            (Request.bind fd (pointer given) size)
            (socket_bind k c sock tp libc given host port w)
        × SocketAnswers
            (plain_entry Registry.connect)
            (Request.connect fd (pointer given) size)
            (socket_connect k c sock tp libc given host port w)
        × SocketAnswers
            (accept_entry stream peer_addr)
            (accept_request stream fd (pointer peer_addr) (pointer addrlen))
            (socket_accept k c sock tp stream addrlen peer_addr w)
        × SocketAnswers
            (plain_entry Registry.close)
            (Request.close_socket fd)
            (socket_close k c sock tp w)
  unfolding socket_listen socket_bind socket_connect perform
  socket_methods-Answers libc backlog given host port stream addrlen peer_addr = (
    plain_method-Answers Registry.listen (λ fd. Request.listen fd backlog),
    addressed_method-Answers libc Registry.bind Request.bind given host port,
    addressed_method-Answers libc Registry.connect Request.connect given host port,
    accept-Answers stream addrlen peer_addr,
    close-Answers,
  )
