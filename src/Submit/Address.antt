-- ===== src/Submit/Address.antt =====
-- src/python_api/ops/sockets/_helpers.c: the address that a method hands to the kernel.
use puring.Base.{
  ℕ, ◌≡◌, refl, ◌⊎◌, inl, inr, true, false, ℤ, Option, none, some, Bool-cases, [], ◌∷◌, ◌++◌,
  if◌then◌else◌,
}
use puring.Uring.{Liburing}
use puring.Buffers.{memory}
use puring.Store.{Store, free?}
use puring.Ops.Words.{u16, eqb_ℤ}
use puring.Submit.{Failure, no_memory, bad_address, unexplained, refused, World, Run}

-- What the code uses of the C library. `inet_pton` answers the address that it has written, if its
-- result is 1; a host is named by the address of its string.
pub record Libc : Type 0 where
  pub htons : ℕ → ℕ
  pub inet_pton : ℤ → ℕ → Option ℕ
  pub sizeof_sockaddr_in : ℕ
  pub sizeof_sockaddr_in6 : ℕ

-- The fields of `struct sockaddr_in` and `struct sockaddr_in6` that are written; the others are 0.
pub record SockAddr : Type 0 where
  pub family : ℤ
  pub port : ℕ
  pub host : Option ℕ

-- NULL with its exception, or an address in the memory that holds it.
pub data Address : Type 0 where
  no_address : Failure → Address
  address : ℕ → SockAddr → Address

module _ (k : Liburing) (libc : Libc) where
  -- The address once `inet_pton` has answered.
  unfoldable pub resolved : ℕ → ℤ → ℤ → Option ℕ → Store → Address × Store
  resolved addr family port none s = (no_address bad_address, free? (some addr) s)
  resolved addr family port (some bytes) s = (
    address addr (record { family = family; port = libc.htons (u16 port); host = some bytes }),
    s,
  )

  -- One of the two branches for a known domain; a host may be NULL.
  unfoldable pub written : ℕ → ℤ → ℤ → Option ℕ → Store → Address × Store
  unfolding resolved
  written addr family port none s =
      (address addr (record { family = family; port = libc.htons (u16 port); host = none }), s)
  written addr family port (some host) s = resolved addr family port (libc.inet_pton family host) s

  -- `_serialize_address`, in the memory that `malloc` has answered.
  unfoldable pub serialize_address : Option ℕ → Option ℕ → ℤ → ℤ → Store → Address × Store
  unfolding written
  serialize_address none host port domain s = (no_address no_memory, s)
  serialize_address (some addr) host port domain s =
      if eqb_ℤ domain k.af_inet
      then written addr k.af_inet port host s
      else if eqb_ℤ domain k.af_inet6
      then written addr k.af_inet6 port host s
      else (no_address unexplained, free? (some addr) s)

  -- `_get_socket_size`
  unfoldable pub get_socket_size : ℤ → ℕ
  get_socket_size domain =
      if eqb_ℤ domain k.af_inet6 then libc.sizeof_sockaddr_in6 else libc.sizeof_sockaddr_in

-- `if (!addr) return NULL`
unfoldable pub with_address : Address × Store → World → (ℕ → World → Run) → Run
with_address (no_address x, s) w next = some (refused x, record w { store = s })
with_address (address addr a, s) w next = next addr (record w { store = s })

-- The family of an address, which the domain of the socket decides.
abbrev pub Family : Liburing → ℤ → ℤ → Type 0
Family k domain family =
    ((eqb_ℤ domain k.af_inet ≡ true) × (family ≡ k.af_inet))
    ⊎ ((eqb_ℤ domain k.af_inet ≡ false) × (eqb_ℤ domain k.af_inet6 ≡ true) × (family ≡ k.af_inet6))

-- The bytes of the host: none where none is given, else those that `inet_pton` has read.
pub data Hosted (libc : Libc) (family : ℤ) : Option ℕ → Option ℕ → Type 0 where
  no_host : Hosted libc family none none
  read : (h b : ℕ) → libc.inet_pton family h ≡ some b → Hosted libc family (some h) (some b)

-- What becomes of the memory for an address: it is handed out with the family of the domain, the port
-- in network order and the host that was asked for, or it is freed, once, because `inet_pton` does not
-- read the host, or because the domain has no family.
pub data Serialized (k : Liburing) (libc : Libc) (host : Option ℕ) (port domain : ℤ) (s : Store)
    : Option ℕ → Address × Store → Type 0 where
  handed_out :
      (addr : ℕ) (family : ℤ) (bytes : Option ℕ)
      → Family k domain family
      → Hosted libc family host bytes
      → Serialized k libc host port domain s
          (some addr)
          (address addr (record { family = family; port = libc.htons (u16 port); host = bytes }), s)
  not_allocated : Serialized k libc host port domain s none (no_address no_memory, s)
  not_read :
      (addr h : ℕ) (family : ℤ)
      → Family k domain family
      → host ≡ some h
      → libc.inet_pton family h ≡ none
      → Serialized k libc host port domain s
          (some addr)
          (no_address bad_address, record s { freed = s.freed ++ memory addr ∷ [] })
  no_family :
      (addr : ℕ)
      → eqb_ℤ domain k.af_inet ≡ false
      → eqb_ℤ domain k.af_inet6 ≡ false
      → Serialized k libc host port domain s
          (some addr)
          (no_address unexplained, record s { freed = s.freed ++ memory addr ∷ [] })

module _ (k : Liburing) (libc : Libc) (port : ℤ) (s : Store) (domain : ℤ) where
  resolved-Serialized :
      (addr : ℕ) (family : ℤ) (h : ℕ) (bytes : Option ℕ)
      → Family k domain family
      → libc.inet_pton family h ≡ bytes
      → Serialized k libc
          (some h)
          port
          domain
          s
          (some addr)
          (resolved k libc addr family port bytes s)
  unfolding resolved
  resolved-Serialized addr family h none known e = not_read addr h family known refl e
  resolved-Serialized addr family h (some b) known e =
      handed_out addr family (some b) known (read h b e)

  written-Serialized :
      (addr : ℕ) (family : ℤ) (host : Option ℕ)
      → Family k domain family
      → Serialized k libc host port domain s (some addr) (written k libc addr family port host s)
  unfolding written
  written-Serialized addr family none known = handed_out addr family none known no_host
  written-Serialized addr family (some h) known =
      resolved-Serialized addr family h (libc.inet_pton family h) known refl

  -- `_serialize_address` loses no memory and frees none twice: what it has allocated it hands out,
  -- with the family of the domain, which is one of the two IP ones, the port in network order and
  -- the host as `inet_pton` has read it, or none if none is given; or it frees it, once, where
  -- `inet_pton` does not read the host, or the domain is another.
  pub serialize_address-Serialized :
      (given host : Option ℕ)
      → Serialized k libc host port domain s given
          (serialize_address k libc given host port domain s)
  unfolding serialize_address
  serialize_address-Serialized none host = not_allocated
  serialize_address-Serialized (some addr) host = elim (Bool-cases (eqb_ℤ domain k.af_inet)) [
    | inl four ↦ rw four (written-Serialized addr k.af_inet host (inl (four, refl)))
    | inr not_four ↦ elim (Bool-cases (eqb_ℤ domain k.af_inet6)) [
      | inl six ↦
          rw (not_four, six) (written-Serialized addr k.af_inet6 host (inr (not_four, six, refl)))
      | inr other ↦ rw (not_four, other) (no_family addr not_four other)
    ]
  ]
