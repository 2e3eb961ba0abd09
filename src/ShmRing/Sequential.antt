-- ===== src/ShmRing/Sequential.antt =====
-- What one thread's write to the ring of src/shm_ring.cc leaves in the slots.
use rf_trans_v.Base.{
  ◌≡◌, refl, ◌∙◌, ℕ, ◌+◌, ◌*◌, ◌%◌, ◌^◌, ◌≤◌, ◌<◌, some, inl, inr, Option-cases, List, [], ◌∷◌,
  arith, ◌==◌, if◌then◌else◌, get_elem?, length,
}
use rf_trans_v.ShmRing.{
  Slot, Ring, SlotHandle, ReservedSlot, reservation, reserve_write, overwrite, commit_handle, take,
  write,
}
use rf_trans_v.ShmRing.Slots.{length-written, written, get_elem?-written}
use native.Mathlib.Nat.{mod-lt}

pub take-overwrite :
    (bytes payload : List ℕ)
    → length bytes ≤ length payload
    → take (length bytes) (overwrite bytes payload) ≡ bytes
unfolding take overwrite
take-overwrite [] payload h = refl
take-overwrite (b ∷ bytes) [] h = ground (arith, h)
take-overwrite (b ∷ bytes) (c ∷ payload) h = ground (arith, take-overwrite bytes payload)

pub length-overwrite : (bytes payload : List ℕ) → length (overwrite bytes payload) ≡ length payload
unfolding overwrite
length-overwrite [] payload = refl
length-overwrite (b ∷ bytes) [] = refl
length-overwrite (b ∷ bytes) (c ∷ payload) = ground (arith, length-overwrite bytes payload)

-- The ring has all its slots, each with room for a message, and its numbers fit their types.
pub record IsRing (r : Ring) : Type 0 where
  pub count : 0 < r.slot_count
  pub count_fits : r.slot_count < 2 ^ 32
  pub size_fits : r.slot_size < 2 ^ 32
  pub slots : length r.slots ≡ r.slot_count
  pub payloads : (i : ℕ) (s : Slot) → get_elem? r.slots i ≡ some s → length s.payload ≡ r.slot_size

-- the slot that a cursor writes to, and the number it leaves there
abbrev pub slot_of : Ring → ℕ → ℕ
slot_of r cursor = cursor % r.slot_count

-- the handle that the write of `bytes` under a cursor returns
abbrev pub handle_of : List ℕ → ℕ → Ring → SlotHandle
handle_of bytes cursor r = record {
  slot_index = slot_of r cursor;
  seq = 2 * cursor + 2;
  size = length bytes;
}

-- what `reserveWrite` reserves, where no number wraps
abbrev pub reserved : Ring → ReservedSlot
reserved r = record { slot_index = slot_of r r.write_cursor; begin_seq = 2 * r.write_cursor + 1 }

abbrev pub after_write : List ℕ → Ring → Ring
after_write bytes r = record r {
  write_cursor = r.write_cursor + 1;
  slots = written (reserved r) bytes (length bytes) r.slots;
}

reservation-eq :
    (r : Ring)
    → IsRing r
    → 2 * r.write_cursor + 2 < 2 ^ 64
    → reservation r.write_cursor r.slot_count ≡ reserved r
unfolding reservation
reservation-eq r v room = ground (arith, mod-lt r.write_cursor v.count, v.count_fits, room)

pub write-eq :
    (bytes : List ℕ) (r : Ring)
    → IsRing r
    → length bytes ≤ r.slot_size
    → 2 * r.write_cursor + 2 < 2 ^ 64
    → write bytes (length bytes) r ≡ (after_write bytes r, handle_of bytes r.write_cursor r)
unfolding write reserve_write commit_handle
write-eq bytes r v fits room = ground (arith, reservation-eq r v room, fits, v.size_fits, room)

-- what a write leaves in a slot
pub get_elem?-after_write :
    (bytes : List ℕ) (r : Ring) (j : ℕ) (s : Slot)
    → 2 * r.write_cursor + 2 < 2 ^ 64
    → get_elem? r.slots j ≡ some s
    → get_elem? (after_write bytes r).slots j ≡ (
        if slot_of r r.write_cursor == j
        then some (record s {
          size = length bytes % 2 ^ 32;
          seq = 2 * r.write_cursor + 2;
          payload = overwrite bytes s.payload;
        })
        else some s)
get_elem?-after_write bytes r j s room at =
    ground (arith, at, room, get_elem?-written (reserved r) bytes (length bytes) j r.slots)

after_write-payloads :
    (bytes : List ℕ) (r : Ring)
    → IsRing r
    → 2 * r.write_cursor + 2 < 2 ^ 64
    → (i : ℕ) (s : Slot) → get_elem? (after_write bytes r).slots i ≡ some s
    → length s.payload ≡ r.slot_size
after_write-payloads bytes r v room i s at = elim (Option-cases (get_elem? r.slots i)) [
  | inl out ↦ ground (arith, at, out, get_elem?-written (reserved r) bytes (length bytes) i r.slots)
  | inr (old, there) ↦ ground (
    arith,
    at,
    get_elem?-after_write bytes r i old room there,
    length-overwrite bytes old.payload,
    v.payloads i old there,
  )
]

pub after_write-IsRing :
    (bytes : List ℕ) (r : Ring)
    → IsRing r
    → 2 * r.write_cursor + 2 < 2 ^ 64
    → IsRing (after_write bytes r)
after_write-IsRing bytes r v room = record {
  count = v.count;
  count_fits = v.count_fits;
  size_fits = v.size_fits;
  slots = length-written (reserved r) bytes (length bytes) r.slots ∙ v.slots;
  payloads = after_write-payloads bytes r v room;
}
