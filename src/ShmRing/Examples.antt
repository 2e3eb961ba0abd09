-- ===== src/ShmRing/Examples.antt =====
-- A ring of two slots, and the theorems on the ring at it.
use rf_trans_v.Base.{
  ◌≡◌, refl, ◌⊎◌, ℕ, zero, suc, true, none, some, List, [], ◌∷◌, arith, get_elem?, length,
}
use rf_trans_v.ShmRing.{
  Slot, Ring, create_as_writer, write, read, begin_read, empty_handle, header_of, open_as_reader,
}
use rf_trans_v.ShmRing.Sequential.{IsRing, handle_of, after_write}
use rf_trans_v.ShmRing.Laps.{write_all, read-write_all}
use rf_trans_v.ShmRing.Threads.{World, Action, take_cursor, mark, put_byte, commit, run, read_among}
use rf_trans_v.ShmRing.Guard.{HasRoom}
use rf_trans_v.ShmRing.Delivery.{read_among-fresh}
use rf_trans_v.ShmRing.Torn.{read_among-write}

abbrev blank : Slot
blank = record { seq = 0; size = 0; payload = 0 ∷ 0 ∷ 0 ∷ [] }

abbrev ring : Ring
ring = record { slot_size = 3; slot_count = 2; write_cursor = 0; slots = blank ∷ blank ∷ [] }

created : create_as_writer true true true 3 2 ≡ some ring
unfolding create_as_writer
created = refl

abbrev hello : List ℕ
hello = 7 ∷ 8 ∷ []

payloads : (i : ℕ) (s : Slot) → get_elem? ring.slots i ≡ some s → length s.payload ≡ 3
payloads zero s h = ground (arith, h)
payloads (suc zero) s h = ground (arith, h)
payloads (suc (suc i)) s h = ground (arith, h)

ring-IsRing : IsRing ring
ring-IsRing = record {
  count = omega arith;
  count_fits = omega arith;
  size_fits = omega arith;
  slots = refl;
  payloads = payloads;
}

abbrev later : List (List ℕ)
later = (1 ∷ []) ∷ (2 ∷ []) ∷ []

read-write_all_example : read (write hello 2 ring).1 (write_all later (write hello 2 ring).0) ≡ none
read-write_all_example =
    read-write_all hello later ring ring-IsRing (omega arith) (omega arith, (omega arith, tt))
      (omega arith)

-- two other writes are on their way while the message is read
abbrev groups : List (List Action)
groups =
    (take_cursor (1 ∷ []) ∷ mark 0 ∷ []) ∷ (put_byte 0 0 ∷ take_cursor (2 ∷ []) ∷ mark 0 ∷ []) ∷ []

abbrev just_written : World
just_written = record { ring = after_write hello ring; writers = [] }

room : HasRoom (handle_of hello 0 ring) 5 just_written
room = record { room = omega arith; past = omega arith; ends = tt }

read_among-write_example :
    let done = write hello 2 ring in
    (read_among done.1 groups [] (record { ring = done.0; writers = [] }) ≡ some hello)
    ⊎ (read_among done.1 groups [] (record { ring = done.0; writers = [] }) ≡ none)
read_among-write_example =
    read_among-write hello ring groups [] ring-IsRing (omega arith) refl (omega arith)

-- one other write, to the other slot, while the message is read
abbrev one_more : List (List Action)
one_more = (take_cursor (1 ∷ []) ∷ mark 0 ∷ []) ∷ (put_byte 0 0 ∷ commit 0 ∷ []) ∷ []

read_among-fresh_example :
    let done = write hello 2 ring in
    read_among done.1 one_more [] (record { ring = done.0; writers = [] }) ≡ some hello
read_among-fresh_example =
    read_among-fresh hello ring one_more [] ring-IsRing (omega arith) refl (omega arith)
      (omega arith) (omega arith)

-- a read that meets no later write to its slot succeeds
quiet_read : read (write hello 2 ring).1 (write hello 2 ring).0 ≡ some hello
unfolding read write begin_read
quiet_read = refl

-- the handle of a refused write passes the check of a slot that was never written
empty_handle_accepted : begin_read empty_handle ring.slots ≡ true
unfolding begin_read
empty_handle_accepted = refl

-- Two writers of one slot: the second one commits while the first is still to copy its bytes.
abbrev one_slot : World
one_slot = record {
  ring = record { slot_size = 3; slot_count = 1; write_cursor = 0; slots = blank ∷ [] };
  writers = [];
}

abbrev raced : World
raced =
    run
      (take_cursor (1 ∷ 1 ∷ [])
        ∷ mark 0
        ∷ take_cursor (2 ∷ 2 ∷ [])
        ∷ mark 0
        ∷ put_byte 0 0
        ∷ put_byte 0 1
        ∷ commit 0
        ∷ [])
      one_slot

-- The first writer copies its second byte while the message of the second is read: the read
-- succeeds with a byte of each.
torn :
    read_among
      (record { slot_index = 0; seq = 4; size = 2 })
      ([] ∷ (put_byte 0 1 ∷ []) ∷ [])
      []
      raced
    ≡ some (2 ∷ 1 ∷ [])
unfolding read_among run
torn = refl

-- the sizes that a reader finds
reader_sizes : open_as_reader true true true (header_of ring) ≡ some (2, 3)
unfolding open_as_reader header_of
reader_sizes = refl
