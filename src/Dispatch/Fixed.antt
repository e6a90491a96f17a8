-- ===== src/Dispatch/Fixed.antt =====
-- What the dispatchers do with a payload of registered buffers.
use puring.Base.{ℕ, suc, ◌<◌, ◌≡◌, refl, sym, ap, ◌∙◌, ℤ, pos, Option, some, Bool, arith}
use puring.Uring.{Liburing, Code}
use puring.Timer.{TimeoutParams}
use puring.Buffers.{LinearBuffer, fixed, is_fixed}
use puring.BufferIndex.{get_buffer_idx}
use puring.BufferIndex.Valid.{Free, IsValid, get_buffer_idx-Takes}
use puring.IndexStack.{free_count}
use puring.Store.{Store, update}
use puring.Registry.{StreamStrategy}
use puring.Ops.Words.{u32}
use puring.Ops.Request.{Request, read_fixed, write_fixed, send_zc_fixed, perform}
use puring.Dispatch.{zero_copy, linear_of, taken, take_index}
use puring.Dispatch.Files.{read_by_mode, read_dispatcher, write_dispatcher}
use puring.Dispatch.Sockets.{send_dispatcher}

-- The dispatcher answers the operation `make`, at an index that was free in the registry `r` of the
-- payload `p`, is in range, is taken afterwards, and is noted in the payload.
pub record Dispatched (k : Liburing) (s : Store) (p r : ℕ) (i : ℤ) (tp : TimeoutParams)
    (make : ℤ → Request) (result : Option (Code ℤ × Store)) : Type 0 where
  pub index : ℕ
  pub store : Store
  pub code : result ≡ some (perform k (make (pos index)) i tp, store)
  pub in_range : index < (s.indices r).size
  pub was_free : Free (s.indices r) (pos index)
  pub now_taken : ¬ Free (store.indices r) (pos index)
  pub valid : IsValid (store.indices r)
  pub one_less : suc (free_count (store.indices r).top) ≡ free_count (s.indices r).top
  pub noted : (store.payloads p).buf_idx ≡ pos index

update_same : {A : Type 0} (f : ℕ → A) (p : ℕ) (v : A) → update f p v p ≡ v
update_same f p v = ground arith

module _ (k : Liburing) (s : Store) (p r : ℕ) (i : ℤ) (tp : TimeoutParams) (n : ℕ)
    (registry : (s.payloads p).idx_registry ≡ some r) (top : (s.indices r).top ≡ pos n)
    (v : IsValid (s.indices r)) where
  take_index-eq : take_index p s ≡ some (taken p r s)
  unfolding take_index
  take_index-eq = rw registry

  dispatched :
      (make : ℤ → Request) (result : Option (Code ℤ × Store))
      → result ≡ some (perform k (make (taken p r s).0) i tp, (taken p r s).1)
      → Dispatched k s p r i tp make result
  dispatched make result e =
      let t = get_buffer_idx-Takes (s.indices r) n top v in
      record {
        index = t.index;
        store = (taken p r s).1;
        code = e ∙ ap (λ x. some (perform k (make x) i tp, (taken p r s).1)) t.is_index;
        in_range = t.in_range;
        was_free = rw (sym t.is_index) t.was_free;
        now_taken =
            rw (update_same s.indices r (get_buffer_idx (s.indices r)).1)
              (rw t.is_index at t.now_taken);
        valid = rw (update_same s.indices r (get_buffer_idx (s.indices r)).1) t.valid;
        one_less = rw (update_same s.indices r (get_buffer_idx (s.indices r)).1) t.one_less;
        noted =
            rw
              (update_same s.payloads p
                (record (s.payloads p) { buf_idx = (get_buffer_idx (s.indices r)).0 }))
              t.is_index;
      }

  module _ (mode : (s.payloads p).mode ≡ fixed) (b : LinearBuffer)
      (linear : linear_of (s.payloads p) ≡ some b) where
    -- The three dispatchers.
    pub read_dispatcher-Dispatched :
        (fd : ℤ) (stream : StreamStrategy) (size offset : ℤ)
        → Dispatched k s p r i tp
            (read_fixed fd b.buffer (u32 size) offset)
            (read_dispatcher k fd p stream i size offset tp s)
    unfolding read_dispatcher read_by_mode perform
    read_dispatcher-Dispatched fd stream size offset = dispatched _ _ (
        ap (λ m. read_by_mode k m p fd stream i size offset tp s) mode
        ∙ (rw (linear, take_index-eq) refl))

    write_dispatcher-Dispatched :
        (fd offset : ℤ)
        → Dispatched k s p r i tp
            (write_fixed fd b.buffer (u32 (pos b.len)) offset)
            (write_dispatcher k fd p i offset tp s)
    unfolding write_dispatcher perform
    write_dispatcher-Dispatched fd offset =
        dispatched _ _ (rw (ap is_fixed mode, linear, take_index-eq) refl)

    send_dispatcher-Dispatched :
        (fd : ℤ) (is_poll_first : Bool)
        → Dispatched k s p r i tp
            (send_zc_fixed fd b.buffer b.len is_poll_first)
            (send_dispatcher k fd p zero_copy i is_poll_first tp s)
    unfolding send_dispatcher perform
    send_dispatcher-Dispatched fd is_poll_first =
        dispatched _ _ (rw (ap is_fixed mode, linear, take_index-eq) refl)

    -- A read by `read_dispatcher` into a registered buffer, a write by `write_dispatcher` from one, and
    -- a zero-copy send by `send_dispatcher` of one, with a valid registry of indices that is not
    -- exhausted, are the fixed read of the size that is asked for, the fixed write of the whole buffer
    -- and the fixed zero-copy send, each at an index that was free and in range, and is taken
    -- afterwards; the registry stays valid, with one index less, and the payload notes the index.
    pub dispatchers-Dispatched :
        (fd size offset : ℤ) (stream : StreamStrategy) (is_poll_first : Bool)
        → Dispatched k s p r i tp
            (read_fixed fd b.buffer (u32 size) offset)
            (read_dispatcher k fd p stream i size offset tp s)
          × Dispatched k s p r i tp
              (write_fixed fd b.buffer (u32 (pos b.len)) offset)
              (write_dispatcher k fd p i offset tp s)
          × Dispatched k s p r i tp
              (send_zc_fixed fd b.buffer b.len is_poll_first)
              (send_dispatcher k fd p zero_copy i is_poll_first tp s)
    dispatchers-Dispatched fd size offset stream is_poll_first = (
      read_dispatcher-Dispatched fd stream size offset,
      write_dispatcher-Dispatched fd offset,
      send_dispatcher-Dispatched fd is_poll_first,
    )
