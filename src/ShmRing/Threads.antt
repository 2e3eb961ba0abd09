-- ===== src/ShmRing/Threads.antt =====
-- Several threads at one ring of src/shm_ring.cc: the steps of `reserveWrite`, of copying bytes in
-- and of `commitWrite`, each atomic, in any order; and a reader that copies bytes out among them.
use rf_trans_v.Base.{
  ℕ, zero, suc, ◌+◌, ◌%◌, ◌^◌, Bool, true, false, Option, none, some, List, [], ◌∷◌, ltb,
  if◌then◌else◌, get_elem?, set, length, option_or,
}
use rf_trans_v.ShmRing.{
  Slot, Ring, SlotHandle, ReservedSlot, reservation, store_seq, commit_slots, begin_read,
  finish_read,
}

-- A write on its way: its message, its slot, and whether the slot's number was made odd.
pub record Writing : Type 0 where
  pub bytes : List ℕ
  pub reserved : ReservedSlot
  pub marked : Bool

pub record World : Type 0 where
  pub ring : Ring
  pub writers : List Writing

-- The steps of writers; a number says which of the writes on their way takes the step.
pub data Action : Type 0 where
  -- `write_cursor_.fetch_add`, of a message that fits
  take_cursor : List ℕ → Action
  -- `slot->seq.store(begin_seq)`
  mark : ℕ → Action
  -- one byte of the message is copied in
  put_byte : ℕ → ℕ → Action
  -- `commitWrite`
  commit : ℕ → Action

-- one byte of a payload
unfoldable pub put_payload : ℕ → ℕ → ℕ → List Slot → List Slot
put_payload i at byte slots = elim (get_elem? slots i) [
  | none ↦ slots
  | some s ↦ set slots i (record s { payload = set s.payload at byte })
]

abbrev pub drop_at : ℕ → List Writing → List Writing
drop_at k [] = []
drop_at zero (w ∷ ws) = ws
drop_at (suc k) (w ∷ ws) = w ∷ drop_at k ws

unfoldable pub fetch_cursor : List ℕ → World → World
unfolding reservation
fetch_cursor bytes w =
    let r = w.ring in
    if ltb r.slot_size (length bytes) then w else record {
      ring = record r { write_cursor = (r.write_cursor + 1) % 2 ^ 64 };
      writers =
          record {
            bytes = bytes;
            reserved = reservation r.write_cursor r.slot_count;
            marked = false;
          }
          ∷ w.writers;
    }

unfoldable pub step_writer : Action → Writing → World → World
unfolding store_seq put_payload commit_slots
step_writer (take_cursor bytes) v w = w
step_writer (mark k) v w = record {
  ring = record w.ring {
    slots = store_seq v.reserved.slot_index v.reserved.begin_seq w.ring.slots;
  };
  writers = set w.writers k (record v { marked = true });
}
step_writer (put_byte k at) v w = elim (get_elem? v.bytes at) [
  | none ↦ w
  | some byte ↦
      if v.marked
      then record w {
        ring = record w.ring { slots = put_payload v.reserved.slot_index at byte w.ring.slots };
      }
      else w
]
step_writer (commit k) v w =
    if v.marked
    then record {
      ring = record w.ring { slots = commit_slots v.reserved (length v.bytes) w.ring.slots };
      writers = drop_at k w.writers;
    }
    else w

abbrev pub writer_of : Action → ℕ
writer_of (take_cursor bytes) = 0
writer_of (mark k) = k
writer_of (put_byte k at) = k
writer_of (commit k) = k

unfoldable pub act : Action → World → World
unfolding fetch_cursor step_writer
act (take_cursor bytes) w = fetch_cursor bytes w
act a w = elim (get_elem? w.writers (writer_of a)) [ none ↦ w | some v ↦ step_writer a v w ]

unfoldable pub run : List Action → World → World
unfolding act
run [] w = w
run (a ∷ acts) w = run acts (act a w)

-- The byte that a reader finds in the slot of its handle.
unfoldable pub byte_at : SlotHandle → ℕ → World → ℕ
byte_at h at w = elim (get_elem? w.ring.slots h.slot_index) [
  | none ↦ 0
  | some s ↦ option_or (get_elem? s.payload at) 0
]

-- Reading bytes from `at` on, one after each group of other threads' steps: what was read, and the
-- world after it.
unfoldable pub copy_out : SlotHandle → ℕ → List (List Action) → World → List ℕ × World
unfolding run byte_at
copy_out h at [] w = ([], w)
copy_out h at (acts ∷ more) w =
    let w1 = run acts w in
    let (bytes, last) = copy_out h (at + 1) more w1 in (byte_at h at w1 ∷ bytes, last)

-- `read`: the check at its begin, the copy, and the check at its end some steps later; there are as
-- many groups of steps as the handle has bytes.
unfoldable pub read_among : SlotHandle → List (List Action) → List Action → World → Option (List ℕ)
unfolding begin_read copy_out run finish_read
read_among h groups acts w =
    let (bytes, w1) = copy_out h 0 groups w in
    if begin_read h w.ring.slots
    then (if finish_read h (run acts w1).ring.slots then some bytes else none)
    else none
