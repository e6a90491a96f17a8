-- ===== src/Payloads/Obtain/Linear.antt =====
-- src/python_api/buffers/buffers.c: what `get_or_create_linear_buffer` comes to.
use mathlib.Core.List.{Perm}
use mathlib.Core.List.Perm
use puring.Base.{ℕ, ◌≡◌, some, List, ◌∷◌}
use puring.Buffers.{BufferPayload, memory}
use puring.Payloads.{Made}
use puring.Payloads.Whole.{Payload}
use puring.Payloads.Tidy.{Tidy}
use puring.Payloads.Single.{release}

-- What a payload for linear buffers of its own comes to: its release hands back all that was taken,
-- or its fields are what its memory held before.
pub data Owned (address : ℕ) (junk : BufferPayload) (m : Made Payload) : Type 0 where
  owned : Tidy release m → Owned address junk m
  stray :
      (p : BufferPayload)
      → m.result ≡ some (address, p)
      → p.linear ≡ junk.linear
      → p.vector ≡ junk.vector
      → Perm (memory address ∷ m.freed) m.taken
      → Owned address junk m
