-- ===== src/BufferIndex.antt =====
-- src/buffer_controllers/buffer_index.c: the stack of free indices of registered buffers.
pub mod Valid
use puring.Base.{
  ℕ, suc, ◌==◌, ℤ, pos, negsuc, is_neg, inc, dec, ltb_ℤ, to_nat, to_signed, Option, none, some,
  Bool, true, false, not, List, [], map, range, set, get_or, if◌then◌else◌,
}

pub record FixedBufferIdxRegistry : Type 0 where
  pub available_indices : List ℤ
  pub top : ℤ
  pub size : ℕ

-- `DEFAULT_BUFFER_IDX_REGISTRY_SIZE`
abbrev pub default_size : ℕ
default_size = 128

-- `(int)size`
abbrev pub int_size : ℕ → ℤ
int_size = to_signed 31

-- `buffer_idx_registry_create`; the Booleans say whether its two allocations succeed. The array has
-- the indices that the loop writes.
unfoldable pub buffer_idx_registry_create : Bool → Bool → ℕ → Option FixedBufferIdxRegistry
buffer_idx_registry_create false indices_ok size = none
buffer_idx_registry_create true false size = none
buffer_idx_registry_create true true size =
    let size' = if size == 0 then default_size else size in
    some (record {
      available_indices = map pos (range 0 (to_nat (int_size size')));
      top = dec (int_size size');
      size = size';
    })

-- `buffer_idx_registry_destroy`
unfoldable pub buffer_idx_registry_destroy : FixedBufferIdxRegistry → FixedBufferIdxRegistry
buffer_idx_registry_destroy reg = record reg { available_indices = []; size = 0; top = negsuc 0 }

-- `get_buffer_idx`. A read outside the array, which a valid registry never makes, gives 0.
unfoldable pub get_buffer_idx : FixedBufferIdxRegistry → ℤ × FixedBufferIdxRegistry
get_buffer_idx reg =
    if is_neg reg.top
    then (negsuc 0, reg)
    else (get_or reg.available_indices (to_nat reg.top) (pos 0), record reg { top = dec reg.top })

-- `release_buffer_idx`
unfoldable pub release_buffer_idx : FixedBufferIdxRegistry → ℤ → ℤ × FixedBufferIdxRegistry
release_buffer_idx reg index =
    if not (ltb_ℤ (inc reg.top) (int_size reg.size)) then (negsuc 0, reg) else (
      pos 0,
      record reg {
        available_indices = set reg.available_indices (to_nat (inc reg.top)) index;
        top = inc reg.top;
      },
    )
