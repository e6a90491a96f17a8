-- ===== src/Registry.antt =====
-- src/registry/registry.c: the slots of the requests in flight, and the stack of free indices.
pub mod Count
pub mod Valid
pub mod Add
pub mod Remove
pub mod RoundTrip
use puring.Base.{
  ℕ, ◌==◌, ℤ, pos, negsuc, is_neg, inc, dec, to_nat, ltb_ℤ, to_unsigned, to_signed, Option, none,
  some, Bool, true, false, not, ◌||◌, List, [], ◌∷◌, map, range, replicate, set, get_or, is_some,
  if◌then◌else◌,
}
use puring.Store.{Store, incref, incref?, decref?, free_payload?, free?}

pub data StreamStrategy : Type 0 where
  oneshot multishot : StreamStrategy

-- The opcodes that the program gives its requests; `nop` is 0.
pub data Opcode : Type 0 where
  nop read readv write writev openat2 socket bind connect listen accept recv recvmsg send sendmsg
        close timeout fsync splice :
      Opcode

pub record RequestSlot : Type 0 where
  pub user_data : ℕ
  pub future : Option ℕ
  pub stream_strategy : StreamStrategy
  pub buffer_payload : Option ℕ
  pub opcode : Opcode
  pub file : Option ℕ
  pub socket : Option ℕ
  pub addr : Option ℕ
  pub msghdr : Option ℕ

pub record RequestRegistry : Type 0 where
  pub slots : List RequestSlot
  pub available_indices : List ℕ
  pub top : ℤ
  pub size : ℕ

-- A slot of zeroed memory.
abbrev pub zero_slot : RequestSlot
zero_slot = record {
  user_data = 0;
  future = none;
  stream_strategy = oneshot;
  buffer_payload = none;
  opcode = nop;
  file = none;
  socket = none;
  addr = none;
  msghdr = none;
}

-- `(int)size`
abbrev pub int_size : ℕ → ℤ
int_size = to_signed 31

-- `DEFAULT_REGISTRY_SIZE`
abbrev pub default_size : ℕ
default_size = 25000

-- `registry_new`; the Booleans say whether its three allocations succeed. The array of indices has
-- those that the loop writes.
unfoldable pub registry_new : Bool → Bool → Bool → ℕ → Option RequestRegistry
registry_new false slots_ok indices_ok size = none
registry_new true false indices_ok size = none
registry_new true true false size = none
registry_new true true true size =
    let size' = if size == 0 then default_size else size in
    some (record {
      slots = replicate size' zero_slot;
      available_indices = range 0 (to_nat (int_size size'));
      top = dec (int_size size');
      size = size';
    })

-- What `registry_destroy` does to a slot.
abbrev pub destroy_slot : RequestSlot → Store → Store
destroy_slot slot s =
    decref? slot.file
      (decref? slot.socket (free_payload? slot.buffer_payload true (decref? slot.future s)))

-- `registry_destroy`, up to the freeing of the registry itself.
unfoldable pub registry_destroy : List RequestSlot → Store → Store
registry_destroy [] s = s
registry_destroy (slot ∷ slots) s = registry_destroy slots (destroy_slot slot s)

-- The slot of index `i`. A read outside the array, which a valid registry never makes, gives a
-- zeroed one.
abbrev pub slot_at : RequestRegistry → ℕ → RequestSlot
slot_at reg i = get_or reg.slots i zero_slot

-- The arguments of `registry_add` between the registry and the index.
pub record Entry : Type 0 where
  pub future : ℕ
  pub buffer_payload : Option ℕ
  pub stream_strategy : StreamStrategy
  pub opcode : Opcode
  pub file : Option ℕ
  pub socket : Option ℕ
  pub addr : Option ℕ
  pub msghdr : Option ℕ

-- The slot as `registry_add` fills it.
abbrev pub filled : Entry → ℕ → RequestSlot
filled e i = record {
  user_data = to_unsigned 64 (pos i);
  future = some e.future;
  stream_strategy = e.stream_strategy;
  buffer_payload = e.buffer_payload;
  opcode = e.opcode;
  file = e.file;
  socket = e.socket;
  addr = e.addr;
  msghdr = e.msghdr;
}

unfoldable pub registry_add : RequestRegistry → Entry → Store → ℤ × RequestRegistry × Store
registry_add reg e s =
    if is_neg reg.top
    then (negsuc 0, reg, s)
    else let i = get_or reg.available_indices (to_nat reg.top) 0 in
      (
        pos i,
        record reg { top = dec reg.top; slots = set reg.slots i (filled e i) },
        incref? e.file (incref? e.socket (incref e.future s)),
      )

-- `index < 0 || index >= (int)size`
abbrev pub is_outside : RequestRegistry → ℤ → Bool
is_outside reg index = is_neg index || not (ltb_ℤ index (int_size reg.size))

-- `registry_get`: NULL, or the index of the slot.
unfoldable pub registry_get : RequestRegistry → ℤ → Option ℕ
registry_get reg index = if is_outside reg index then none else some (to_nat index)

-- What `registry_remove` does to the objects of a slot, and what it leaves in the slot.
abbrev pub release_slot : RequestSlot → Store → Store
release_slot slot s = free? slot.msghdr (
    decref? slot.file
      (decref? slot.socket (free_payload? slot.buffer_payload false (decref? slot.future s))))

abbrev pub cleared : RequestSlot → RequestSlot
cleared slot = record slot {
  future = none;
  buffer_payload = none;
  socket = none;
  file = none;
  msghdr = none;
  opcode = nop;
}

-- `registry_remove`; `none` is the call of `abort`.
unfoldable pub registry_remove : RequestRegistry → ℤ → Store → Option (RequestRegistry × Store)
registry_remove reg index s =
    if is_outside reg index
    then some (reg, s)
    else if not (ltb_ℤ reg.top (dec (int_size reg.size)))
    then none
    else let i = to_nat index in
      some (
        record reg {
          slots = set reg.slots i (cleared (slot_at reg i));
          top = inc reg.top;
          available_indices = set reg.available_indices (to_nat (inc reg.top)) i;
        },
        release_slot (slot_at reg i) s,
      )
