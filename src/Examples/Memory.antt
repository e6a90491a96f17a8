-- ===== src/Examples/Memory.antt =====
-- Payloads that are made while memory lasts.
use mathlib.Core.List.{Perm}
use puring.Base.{◌≡◌, refl, pos, to_signed_of_lt, some, none, true, false, [], ◌∷◌, ◌++◌, arith}
use puring.Buffers.{
  normal_buf, fixed, provided, payload_linear, payload_user, BufferPayload, memory, free_views,
  free_buffer_payload,
}
use puring.Payloads.{Made, Supply}
use puring.Payloads.Whole.{Payload}
use puring.Payloads.Pairs.{Fresh}
use puring.Payloads.Create.{null, sequence, get_buffer_metadata, size_each, create_buffer_payload}
use puring.Payloads.Selecting.{Selected, create_buffer_payload-Selected}
use puring.Payloads.Users.{create_buffer_payload-Tidy}
use puring.Payloads.Lost.{create_buffer_payload-loses}
use puring.Payloads.Obtain.{get_or_create_vectored_buffer}
use puring.Payloads.Obtain.Vectored.{Obtained, get_or_create_vectored_buffer-Obtained}
use puring.Examples.{payload}

-- What `malloc` answers, two regions of 16 bytes, and memory of zeros.
abbrev fresh : Supply → Fresh
fresh supply = record {
  supply = supply;
  items =
      some (record { id = 1; buf = 2000; len = 16 })
      ∷ some (record { id = 2; buf = 2016; len = 16 })
      ∷ [];
  linear_views = none;
  linear_rest = [];
  vector_views = none;
  vector_rest = [];
  nr_vecs = 0;
}

abbrev enough : Supply
enough = some 1000 ∷ some 1010 ∷ some 1020 ∷ some 1030 ∷ []

two_regions :
    get_buffer_metadata (sequence 2 32) (pos 0) (pos 0)
    ≡ some (record { payload_origin = payload_user; amount = pos 2; bufsize = pos 16 })
unfolding get_buffer_metadata size_each
two_regions = rw (to_signed_of_lt 2 (omega arith), to_signed_of_lt 16 (omega arith)) refl

create_buffer_payload-Selected_example :
    (m : Made Payload) × (create_buffer_payload provided payload_linear
        (sequence 2 32)
        (pos 0)
        (pos 0)
        (some 1200)
        payload
        (fresh enough)
        (fresh [])
        (pos 77)
      ≡ some m)
    × Selected provided payload_user 2 1200 m
create_buffer_payload-Selected_example =
    create_buffer_payload-Selected payload_linear 1200 payload (fresh enough) (fresh []) (pos 77)
      payload_user 2 (pos 16) provided (sequence 2 32) (pos 0) (pos 0) refl two_regions

create_buffer_payload-loses_example :
    (m : Made Payload) × (p : BufferPayload) × (create_buffer_payload normal_buf payload_linear null
        (pos 1)
        (pos 16)
        (some 1200)
        payload
        (fresh (some 1100 ∷ some 1110 ∷ []))
        (fresh enough)
        (pos 77)
      ≡ some m)
    × (m.result ≡ some (1200, p))
    × (m.freed ≡ [])
    × (m.taken
        ≡ memory 1200
          ∷ ((memory 1100 ∷ memory 1110 ∷ [])
              ++ (memory 1000 ∷ memory 1010 ∷ memory 1020 ∷ memory 1030 ∷ [])))
    × (free_buffer_payload 1200 p false
        ≡ (memory 1030 ∷ memory 1000 ∷ [])
          ++ (memory 1030 ∷ free_views 1 none ++ memory 1020 ∷ memory 1010 ∷ [])
          ++ memory 1200 ∷ [])
create_buffer_payload-loses_example =
    create_buffer_payload-loses 1200 payload (pos 16) (pos 77) (fresh (some 1100 ∷ some 1110 ∷ []))
      (fresh enough) 1100 1000 1010 1020 (1110 ∷ []) (1030 ∷ []) (omega arith) refl refl refl

get_or_create_vectored_buffer-Obtained_example :
    Obtained (some (600, payload)) (get_or_create_vectored_buffer (some (600, payload)) none enough)
get_or_create_vectored_buffer-Obtained_example =
    get_or_create_vectored_buffer-Obtained (some (600, payload)) none enough (omega arith)

-- The two regions, as a payload of the mode FIXED.
create_buffer_payload-Tidy_example :
    (m : Made Payload) × (p : BufferPayload) × (create_buffer_payload fixed payload_linear
        (sequence 2 32)
        (pos 0)
        (pos 0)
        (some 1200)
        payload
        (fresh enough)
        (fresh [])
        (pos 77)
      ≡ some m)
    × (m.result ≡ some (1200, p))
    × (m.freed ≡ [])
    × Perm (free_buffer_payload 1200 p true) m.taken
    × (free_buffer_payload 1200 p false ≡ [])
create_buffer_payload-Tidy_example =
    create_buffer_payload-Tidy payload_linear 1200 payload (fresh enough) (fresh []) (pos 77)
      (pos 16) 1000 1010 1020 1030
      (record { id = 1; buf = 2000; len = 16 } ∷ record { id = 2; buf = 2016; len = 16 } ∷ [])
      (sequence 2 32) (pos 0) (pos 0) two_regions refl refl
