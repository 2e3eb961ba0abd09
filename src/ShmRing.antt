-- ===== src/ShmRing.antt =====
-- src/shm_ring.cc and include/trans/details/shm_ring.hpp: a ring of slots in shared memory, each
-- under a sequence number that is odd while a writer fills the slot. Memory is sequentially
-- consistent; an access through a slot index that is out of range does nothing here.
pub mod Slots
pub mod Sequential
pub mod Laps
pub mod Threads
pub mod Guard
pub mod Steps
pub mod Runs
pub mod Torn
pub mod Fresh
pub mod Delivery
mod Examples
use rf_trans_v.Base.{
  ℕ, zero, suc, ◌+◌, ◌*◌, ◌%◌, ◌^◌, Bool, true, false, not, ◌&&◌, Option, none, some, List, [], ◌∷◌,
  ltb, ◌==◌, if◌then◌else◌, get_elem?, set, replicate,
}

pub record Slot : Type 0 where
  pub seq : ℕ
  pub size : ℕ
  pub payload : List ℕ

pub record Ring : Type 0 where
  pub slot_size : ℕ
  pub slot_count : ℕ
  pub write_cursor : ℕ
  pub slots : List Slot

pub record SlotHandle : Type 0 where
  pub slot_index : ℕ
  pub seq : ℕ
  pub size : ℕ

pub record ReservedSlot : Type 0 where
  pub slot_index : ℕ
  pub begin_seq : ℕ

abbrev pub empty_handle : SlotHandle
empty_handle = record { slot_index = 0; seq = 0; size = 0 }

-- `createAsWriter`, by the success of `shm_open`, `ftruncate` and `mmap`. The segment is new, so
-- its bytes are zero.
unfoldable pub create_as_writer : Bool → Bool → Bool → ℕ → ℕ → Option Ring
create_as_writer opened truncated mapped slot_size slot_count =
    if opened && truncated && mapped
    then some (record {
      slot_size = slot_size;
      slot_count = slot_count;
      write_cursor = 0;
      slots = replicate slot_count (record { seq = 0; size = 0; payload = replicate slot_size 0 });
    })
    else none

-- kMagic
abbrev pub magic_number : ℕ
magic_number = 1380340552

pub record RingHeader : Type 0 where
  pub magic : ℕ
  pub slot_count : ℕ
  pub slot_size : ℕ

-- what `createAsWriter` leaves in the header
unfoldable pub header_of : Ring → RingHeader
header_of r = record {
  magic = magic_number;
  slot_count = r.slot_count % 2 ^ 32;
  slot_size = r.slot_size % 2 ^ 32;
}

-- `openAsReader`, by the success of `shm_open` and of the two calls of `mmap`: the number of slots
-- and their size
unfoldable pub open_as_reader : Bool → Bool → Bool → RingHeader → Option (ℕ × ℕ)
open_as_reader opened header_mapped mapped header =
    if opened && header_mapped && (header.magic == magic_number) && mapped
    then some (header.slot_count, header.slot_size)
    else none

-- `slot->seq.store(seq)`
unfoldable pub store_seq : ℕ → ℕ → List Slot → List Slot
store_seq i seq slots = elim (get_elem? slots i) [
  | none ↦ slots
  | some s ↦ set slots i (record s { seq = seq })
]

-- `slot->seq.load()`
unfoldable pub load_seq : ℕ → List Slot → Option ℕ
load_seq i slots = elim (get_elem? slots i) [ none ↦ none | some s ↦ some s.seq ]

-- the slot and the sequence number of a cursor
unfoldable pub reservation : ℕ → ℕ → ReservedSlot
reservation cursor slot_count = record {
  slot_index = cursor % slot_count % 2 ^ 32;
  begin_seq = (2 * cursor + 1) % 2 ^ 64;
}

-- `reserveWrite`; `none` where the payload is null
unfoldable pub reserve_write : ℕ → Ring → Ring × Option ReservedSlot
unfolding reservation store_seq
reserve_write size r =
    let reserved = reservation r.write_cursor r.slot_count in
    if ltb r.slot_size size then (r, none) else (
      record r {
        write_cursor = (r.write_cursor + 1) % 2 ^ 64;
        slots = store_seq reserved.slot_index reserved.begin_seq r.slots;
      },
      some reserved,
    )

-- `commitWrite`
unfoldable pub commit_slots : ReservedSlot → ℕ → List Slot → List Slot
unfolding store_seq
commit_slots reserved size slots = elim (get_elem? slots reserved.slot_index) [
  | none ↦ slots
  | some s ↦
      store_seq reserved.slot_index ((reserved.begin_seq + 1) % 2 ^ 64)
        (set slots reserved.slot_index (record s { size = size % 2 ^ 32 }))
]

unfoldable pub commit_handle : ReservedSlot → ℕ → SlotHandle
commit_handle reserved size = record {
  slot_index = reserved.slot_index;
  seq = (reserved.begin_seq + 1) % 2 ^ 64;
  size = size % 2 ^ 32;
}

-- `memcpy` of bytes to the start of a payload
unfoldable pub overwrite : List ℕ → List ℕ → List ℕ
overwrite [] payload = payload
overwrite (b ∷ bytes) [] = []
overwrite (b ∷ bytes) (c ∷ payload) = b ∷ overwrite bytes payload

unfoldable pub copy_in : ℕ → List ℕ → List Slot → List Slot
unfolding overwrite
copy_in i bytes slots = elim (get_elem? slots i) [
  | none ↦ slots
  | some s ↦ set slots i (record s { payload = overwrite bytes s.payload })
]

-- the first bytes of a payload
unfoldable pub take : ℕ → List ℕ → List ℕ
take zero payload = []
take (suc n) [] = []
take (suc n) (b ∷ payload) = b ∷ take n payload

-- `write`, with the number of bytes
unfoldable pub write : List ℕ → ℕ → Ring → Ring × SlotHandle
unfolding reserve_write copy_in commit_slots commit_handle
write bytes size r =
    let (r1, reserved) = reserve_write size r in
    elim reserved [
      | none ↦ (r1, empty_handle)
      | some v ↦ (
        record r1 { slots = commit_slots v size (copy_in v.slot_index bytes r1.slots) },
        commit_handle v size,
      )
    ]

-- `beginRead`: whether it returns a payload
unfoldable pub begin_read : SlotHandle → List Slot → Bool
unfolding load_seq
begin_read h slots = elim (load_seq h.slot_index slots) [
  | none ↦ false
  | some seq ↦ seq == h.seq && (seq % 2 == 0)
]

-- `finishRead`
unfoldable pub finish_read : SlotHandle → List Slot → Bool
unfolding load_seq
finish_read h slots = elim (load_seq h.slot_index slots) [ none ↦ false | some seq ↦ seq == h.seq ]

-- `read` with no writer between: `none` where it returns false
unfoldable pub read : SlotHandle → Ring → Option (List ℕ)
unfolding begin_read finish_read take
read h r =
    if begin_read h r.slots
    then elim (get_elem? r.slots h.slot_index) [
      | none ↦ none
      | some s ↦ if finish_read h r.slots then some (take h.size s.payload) else none
    ]
    else none
