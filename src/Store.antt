-- ===== src/Store.antt =====
-- The objects that the C structures point to, shared between requests: Python objects with their
-- reference counts, payloads, index registries, files and sockets. An object is named by its address.
use puring.Base.{ℕ, suc, ◌-◌, ◌==◌, ℤ, Option, none, some, Bool, List, [], ◌∷◌, ◌++◌, if◌then◌else◌}
use puring.Buffers.{BufferPayload, Freed, memory, free_buffer_payload}
use puring.BufferIndex.{FixedBufferIdxRegistry}

-- The fields of `UringioFile` that the loop changes.
pub record File : Type 0 where
  pub fd : ℤ
  pub closed : Bool

-- The fields of `UringioSocket`.
pub record Socket : Type 0 where
  pub sock_fd : ℤ
  pub closed : Bool
  pub domain : ℤ
  pub addr : Option ℕ

pub record Store : Type 0 where
  -- reference counts
  pub refs : ℕ → ℕ
  pub payloads : ℕ → BufferPayload
  pub indices : ℕ → FixedBufferIdxRegistry
  pub files : ℕ → File
  pub sockets : ℕ → Socket
  -- what has been freed, the latest last
  pub freed : List Freed

abbrev pub update {ℓ} : {A : Type ℓ} → (ℕ → A) → ℕ → A → ℕ → A
update f p v q = if p == q then v else f q

-- `Py_INCREF`, and `if (o) Py_INCREF(o)`
abbrev pub incref : ℕ → Store → Store
incref o s = record s { refs = update s.refs o (suc (s.refs o)) }

abbrev pub incref? : Option ℕ → Store → Store
incref? none s = s
incref? (some o) s = incref o s

-- `Py_DECREF`; an object whose count falls to 0 is not followed further.
abbrev pub decref : ℕ → Store → Store
decref o s = record s { refs = update s.refs o (s.refs o - 1) }

abbrev pub decref? : Option ℕ → Store → Store
decref? none s = s
decref? (some o) s = decref o s

-- `free_buffer_payload`; a NULL payload is left alone.
abbrev pub free_payload? : Option ℕ → Bool → Store → Store
free_payload? none force s = s
free_payload? (some p) force s = record s {
  freed = s.freed ++ free_buffer_payload p (s.payloads p) force;
}

-- `free`
abbrev pub free? : Option ℕ → Store → Store
free? none s = s
free? (some p) s = record s { freed = s.freed ++ memory p ∷ [] }
