-- ===== src/Payloads/Selecting.antt =====
-- The payloads of the modes PROVIDED and BUF_RING: what making one takes.
use mathlib.Core.List.{Perm, append-nil}
use mathlib.Core.List.Perm
use puring.Base.{ℕ, ◌≡◌, refl, ap, ◌∙◌, ℤ, pos, none, some, true, [], ◌∷◌, ◌++◌}
use puring.Buffers.{
  BufferMode, normal_buf, fixed, provided, buf_ring, buf_no_val, is_selecting, is_runtime,
  PayloadOrigin, payload_user, payload_runtime, origin_no_val, PayloadType, payload_linear,
  LinearBuffers, BufferPayload, memory, free_linear, free_vector, free_buffer_payload,
}
use puring.Payloads.{malloc, Made}
use puring.Payloads.Whole.{Payload}
use puring.Payloads.Pairs.{Fresh, Attempt}
use puring.Payloads.Tidy.{
  Tidy, holds, handed_back, last-one, array_linear-Tidy, serialize_linear_buffers-Tidy,
}
use puring.Payloads.Create.{
  and_then, if_made, ◌>>=◌, PyBuffers, BufferMetadata, get_buffer_metadata, with_linear, if_some,
  linear_part, mode_part, finish_payload, finished, payload_allocated, with_metadata,
  create_buffer_payload,
}

-- The linear part: the payload holds what was taken, or what was taken has been handed back.
data Filled (origin : PayloadOrigin) (n : ℕ) (p : BufferPayload) (m : Made BufferPayload)
    : Type 0 where
  filled :
      (b : LinearBuffers)
      → m.result ≡ some (record p { linear = some b; vector = none })
      → m.freed ≡ []
      → Perm (free_linear (is_runtime origin) n (some b)) m.taken
      → Filled origin n p m
  unfilled : m.result ≡ none → Perm m.freed m.taken → Filled origin n p m

with_linear-Filled :
    (origin : PayloadOrigin) (n : ℕ) (p : BufferPayload) (made : Made LinearBuffers)
    → Tidy (λ b. free_linear (is_runtime origin) n (some b)) made
    → (m : Made BufferPayload) × (with_linear p made ≡ some m) × Filled origin n p m
with_linear-Filled origin n p made (holds b e freed same) = (
  _,
  refl,
  filled b (ap (if_some (λ b. record p { linear = some b; vector = none })) e) freed same,
)
with_linear-Filled origin n p made (handed_back e same) =
    (_, refl, unfilled (ap (if_some (λ b. record p { linear = some b; vector = none })) e) same)

linear_part-Filled :
    (origin : PayloadOrigin) (n : ℕ) (bufsize : ℤ) (f : Fresh) (p : BufferPayload)
    → (m : Made BufferPayload) × (linear_part origin (pos n) bufsize f p ≡ some m)
      × Filled origin n p m
unfolding linear_part
linear_part-Filled payload_runtime n bufsize f p =
    with_linear-Filled payload_runtime n p _ (array_linear-Tidy bufsize n (malloc f.supply))
linear_part-Filled payload_user n bufsize f p =
    with_linear-Filled payload_user n p _ (serialize_linear_buffers-Tidy f.items n f.supply)
linear_part-Filled origin_no_val n bufsize f p = (_, refl, unfilled refl (Perm.refl []))

-- What `create_buffer_payload` comes to: the payload is of the mode, the origin and the amount that
-- are asked for, it has linear buffers and no vectors, and its release hands back all that was taken,
-- each once; or it fails, has handed back all but the memory of the payload itself, and nothing
-- points to that any more.
pub data Selected (mode : BufferMode) (origin : PayloadOrigin) (n address : ℕ) (m : Made Payload)
    : Type 0 where
  selected :
      (p : BufferPayload) (b : LinearBuffers)
      → m.result ≡ some (address, p)
      → p.mode ≡ mode
      → p.payload_origin ≡ origin
      → p.amount ≡ pos n
      → p.payload_type ≡ payload_linear
      → p.linear ≡ some b
      → p.vector ≡ none
      → m.freed ≡ []
      → Perm (free_buffer_payload address p true) m.taken
      → Selected mode origin n address m
  leaked :
      m.result ≡ none → Perm (memory address ∷ m.freed) m.taken → Selected mode origin n address m

module _ (origin : PayloadOrigin) (n : ℕ) (bufsize : ℤ) (address : ℕ) (p : BufferPayload) where
  abbrev asked : BufferMetadata
  asked = record { payload_origin = origin; amount = pos n; bufsize = bufsize }

  abbrev ending : BufferMode → Made BufferPayload → Attempt Payload
  ending mode m = and_then (memory address ∷ []) [] (some m >>= finished address mode asked)

  -- The release of such a payload.
  selecting-release :
      (mode : BufferMode) (b : LinearBuffers)
      → is_selecting mode ≡ true
      → free_buffer_payload address
          (finish_payload mode asked (record p { linear = some b; vector = none }))
          true
        ≡ free_linear (is_runtime origin) n (some b) ++ memory address ∷ []
  unfolding free_buffer_payload free_vector
  selecting-release provided b chosen = ap (λ l. l ++ memory address ∷ []) (append-nil _)
  selecting-release buf_ring b chosen = ap (λ l. l ++ memory address ∷ []) (append-nil _)
  selecting-release normal_buf b chosen = absurd (cc)
  selecting-release fixed b chosen = absurd (cc)
  selecting-release buf_no_val b chosen = absurd (cc)

  selecting-type :
      (mode : BufferMode) (q : BufferPayload)
      → is_selecting mode ≡ true
      → (finish_payload mode asked q).payload_type ≡ payload_linear
  selecting-type provided q chosen = refl
  selecting-type buf_ring q chosen = refl
  selecting-type normal_buf q chosen = absurd (cc)
  selecting-type fixed q chosen = absurd (cc)
  selecting-type buf_no_val q chosen = absurd (cc)

  ending-Selected :
      (mode : BufferMode) (m : Made BufferPayload)
      → is_selecting mode ≡ true
      → Filled origin n p m
      → (m' : Made Payload) × (ending mode m ≡ some m') × Selected mode origin n address m'
  ending-Selected mode m chosen (filled b e freed same) =
      let q : BufferPayload = record p { linear = some b; vector = none } in
      (
        _,
        ap
            (λ o.
              and_then (memory address ∷ []) []
                (if_made o m.taken m.freed (finished address mode asked)))
            e,
        selected (finish_payload mode asked q) b refl refl refl refl (selecting-type mode q chosen)
            refl refl (ap (λ l. l ++ []) freed)
            (rw (selecting-release mode b chosen, append-nil m.taken)
              (Perm.trans (last-one (free_linear (is_runtime origin) n (some b)) (memory address))
                (Perm.cons (memory address) same))),
      )
  ending-Selected mode m chosen (unfilled e same) = (
    _,
    ap
        (λ o.
          and_then (memory address ∷ []) []
            (if_made o m.taken m.freed (finished address mode asked)))
        e,
    leaked refl (Perm.cons (memory address) same),
  )

module _ (type : PayloadType) (address : ℕ) (junk : BufferPayload) (first second : Fresh) (bgid : ℤ)
    (origin : PayloadOrigin) (n : ℕ) (bufsize : ℤ) where
  payload_allocated-Selected :
      (mode : BufferMode)
      → is_selecting mode ≡ true
      → (m : Made Payload) × (payload_allocated mode type
            (some address)
            junk
            (record { payload_origin = origin; amount = pos n; bufsize = bufsize })
            first
            second
            bgid
          ≡ some m)
        × Selected mode origin n address m
  unfolding payload_allocated mode_part
  payload_allocated-Selected provided chosen =
      let p : BufferPayload = record junk { bgid = bgid } in
      let (m, e, part) = linear_part-Filled origin n bufsize first p in
      let (m', e', made) = ending-Selected origin n bufsize address p provided m chosen part in
      (
        m',
        ap
              (λ o.
                and_then (memory address ∷ []) []
                  (o >>= finished address provided (asked origin n bufsize address p)))
              e
            ∙ e',
        made,
      )
  payload_allocated-Selected buf_ring chosen =
      let p : BufferPayload = record junk { bgid = pos 0 } in
      let (m, e, part) = linear_part-Filled origin n bufsize first p in
      let (m', e', made) = ending-Selected origin n bufsize address p buf_ring m chosen part in
      (
        m',
        ap
              (λ o.
                and_then (memory address ∷ []) []
                  (o >>= finished address buf_ring (asked origin n bufsize address p)))
              e
            ∙ e',
        made,
      )
  payload_allocated-Selected normal_buf chosen = absurd (cc)
  payload_allocated-Selected fixed chosen = absurd (cc)
  payload_allocated-Selected buf_no_val chosen = absurd (cc)

  -- `create_buffer_payload` in the modes PROVIDED and BUF_RING, where its own memory can be had, of
  -- the buffers that `_get_buffer_metadata` counts, new ones or those of a sequence: the payload is
  -- of the mode, the origin and the amount asked for, has linear buffers and no vectors, and its
  -- forced release hands back all that was taken, each once; or it fails, and has handed back all
  -- but the memory of the payload itself, which is lost.
  pub create_buffer_payload-Selected :
      (mode : BufferMode) (buffers : PyBuffers) (amount size : ℤ)
      → is_selecting mode ≡ true
      → get_buffer_metadata buffers amount size
        ≡ some (record { payload_origin = origin; amount = pos n; bufsize = bufsize })
      → (m : Made Payload) × (create_buffer_payload mode type buffers amount size
            (some address)
            junk
            first
            second
            bgid
          ≡ some m)
        × Selected mode origin n address m
  unfolding create_buffer_payload
  create_buffer_payload-Selected mode buffers amount size chosen known =
      let (m, e, made) = payload_allocated-Selected mode chosen in
      (
        m,
        ap
              (λ o.
                with_metadata o
                  λ d. payload_allocated mode type (some address) junk d first second bgid)
              known
            ∙ e,
        made,
      )
