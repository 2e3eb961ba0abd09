-- ===== src/ShmRing/Delivery.antt =====
-- Which reads of the ring of src/shm_ring.cc succeed.
use rf_trans_v.Base.{
  ◌≡◌, ◌≢◌, refl, inl, inr, ℕ, ◌+◌, ◌*◌, ◌%◌, ◌^◌, ◌<◌, ◌≤◌, none, some, List, [], arith, length,
}
use mathlib.Core.Path.{subst}
use rf_trans_v.ShmRing.Torn.{total, write-IsIntact, read_among-write}
use rf_trans_v.ShmRing.{Ring, SlotHandle, load_seq, begin_read, finish_read, write}
use rf_trans_v.ShmRing.Sequential.{IsRing, handle_of, after_write, write-eq}
use rf_trans_v.ShmRing.Threads.{World, Action, run, copy_out, read_among}
use rf_trans_v.ShmRing.Fresh.{IsFresh, takes, total_takes, run-IsFresh, copy_out-IsFresh}

first-IsFresh :
    (bytes : List ℕ) (r : Ring) (k : ℕ)
    → IsRing r
    → length bytes ≤ r.slot_size
    → k < r.slot_count
    → r.write_cursor + r.slot_count < 2 ^ 63
    → IsFresh
        (handle_of bytes r.write_cursor r)
        r.write_cursor
        k
        (record { ring = after_write bytes r; writers = [] })
unfolding load_seq
first-IsFresh bytes r k v fits few room =
    let p = write-IsIntact bytes r v fits (omega (arith, room, few)) in
    record {
      shown = ground (arith, p.there, p.same);
      missed = tt;
      place = refl;
      begun = omega arith;
      left = omega (arith, few);
      count_fits = v.count_fits;
      room = room;
    }

-- a read that begins and ends on the number of its handle returns something
read_among-some :
    (h : SlotHandle) (groups : List (List Action)) (acts : List Action) (w : World)
    → load_seq h.slot_index w.ring.slots ≡ some h.seq
    → h.seq % 2 ≡ 0
    → load_seq h.slot_index (run acts (copy_out h 0 groups w).1).ring.slots ≡ some h.seq
    → read_among h groups acts w ≢ none
unfolding read_among begin_read finish_read
read_among-some h groups acts w first even last e = ground (arith, first, even, last, e)

-- A message that fits a slot is written in a well-formed ring where no other write is under way; then
-- a reader reads it by its handle while other threads begin writes, which take fewer cursors than the
-- ring has slots, mark slots, copy bytes in and commit, in any order. As long as no sequence number
-- can wrap, the reader gets the message.
pub read_among-fresh :
    (bytes : List ℕ) (r : Ring) (groups : List (List Action)) (acts : List Action)
    → IsRing r
    → length bytes ≤ r.slot_size
    → length groups ≡ length bytes
    → total_takes groups + takes acts < r.slot_count
    → r.write_cursor + r.slot_count < 2 ^ 63
    → 2 * (r.write_cursor + total groups + length acts + 2) < 2 ^ 64
    → let done = write bytes (length bytes) r in
      read_among done.1 groups acts (record { ring = done.0; writers = [] }) ≡ some bytes
read_among-fresh bytes r groups acts v fits l few near room =
    let h = handle_of bytes r.write_cursor r in
    let w : World = record { ring = after_write bytes r; writers = [] } in
    let k = total_takes groups + takes acts in
    let start = first-IsFresh bytes r k v fits few near in
    let copied = copy_out-IsFresh h r.write_cursor (takes acts) k 0 groups w refl start in
    let ended =
      run-IsFresh h r.write_cursor 0 (takes acts) acts (copy_out h 0 groups w).1 (omega arith)
        copied in
    let got = read_among-some h groups acts w start.shown (omega arith) ended.shown in
    let same = write-eq bytes r v fits (omega (arith, room)) in
    elim (read_among-write bytes r groups acts v fits l room) [
      | inl o ↦ o
      | inr o ↦ ground (
        got (
            subst (λ x. read_among x.1 groups acts (record { ring = x.0; writers = [] }) ≡ none)
              same o),
        arith,
      )
    ]
