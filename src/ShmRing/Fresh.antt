-- ===== src/ShmRing/Fresh.antt =====
-- While fewer cursors are taken than the ring of src/shm_ring.cc has slots, no write comes to the
-- slot of a handle.
use rf_trans_v.Base.{
  ◌≡◌, ◌≢◌, ◌-◌, refl, inl, inr, ℕ, suc, ◌+◌, ◌%◌, ◌^◌, ◌<◌, ◌≤◌, true, false, some, Option-cases,
  Bool-cases, List, [], ◌∷◌, arith, ◌==◌, ltb, get_elem?, length, All,
}
use native.Mathlib.Nat.{mod-lt}
use rf_trans_v.ShmRing.{SlotHandle, reservation, load_seq}
use rf_trans_v.ShmRing.Slots.{get_elem?-store_seq, get_elem?-commit_slots}
use rf_trans_v.ShmRing.Laps.{other_slot}
use rf_trans_v.ShmRing.Threads.{
  Writing, World, Action, take_cursor, mark, put_byte, commit, fetch_cursor, step_writer, writer_of,
  act, run, copy_out,
}
use rf_trans_v.ShmRing.Guard.{All-get, All-set, All-drop_at, get_elem?-put_payload}

-- the write is not to the slot of the handle
abbrev pub Misses : SlotHandle → Writing → Type 0
Misses h v = (v.reserved.slot_index == h.slot_index) ≡ false

abbrev pub takes : List Action → ℕ
takes [] = 0
takes (take_cursor bytes ∷ acts) = suc (takes acts)
takes (_ ∷ acts) = takes acts

abbrev pub total_takes : List (List Action) → ℕ
total_takes [] = 0
total_takes (acts ∷ groups) = takes acts + total_takes groups

-- `k` more cursors can be taken before the slot of the cursor `c` comes again.
pub record IsFresh (h : SlotHandle) (c k : ℕ) (w : World) : Type 0 where
  pub shown : load_seq h.slot_index w.ring.slots ≡ some h.seq
  pub missed : All (Misses h) w.writers
  pub place : h.slot_index ≡ c % w.ring.slot_count
  pub begun : c < w.ring.write_cursor
  pub left : w.ring.write_cursor + k ≤ c + w.ring.slot_count
  pub count_fits : w.ring.slot_count < 2 ^ 32
  pub room : c + w.ring.slot_count < 2 ^ 63

step-load_seq :
    (h : SlotHandle) (a : Action) (v : Writing) (w : World)
    → Misses h v
    → load_seq h.slot_index (step_writer a v w).ring.slots ≡ load_seq h.slot_index w.ring.slots
unfolding step_writer load_seq
step-load_seq h (take_cursor bytes) v w m = refl
step-load_seq h (mark k) v w m = ground (
  arith,
  m,
  get_elem?-store_seq v.reserved.slot_index v.reserved.begin_seq h.slot_index w.ring.slots,
)
step-load_seq h (put_byte k j) v w m = elim (Option-cases (get_elem? v.bytes j)) [
  | inl out ↦ ground (arith, out)
  | inr (byte, is) ↦
      ground
        (arith, m, is, get_elem?-put_payload v.reserved.slot_index j byte h.slot_index w.ring.slots)
]
step-load_seq h (commit k) v w m =
    ground (arith, m, get_elem?-commit_slots v.reserved (length v.bytes) h.slot_index w.ring.slots)

step-Misses :
    (h : SlotHandle) (a : Action) (v : Writing) (w : World)
    → Misses h v
    → All (Misses h) w.writers
    → All (Misses h) (step_writer a v w).writers
unfolding step_writer
step-Misses h (take_cursor bytes) v w m k = k
step-Misses h (mark i) v w m k = All-set (Misses h) w.writers i (record v { marked = true }) k m
step-Misses h (put_byte i j) v w m k = ground (arith, k)
step-Misses h (commit i) v w m k = ground (arith, k, All-drop_at (Misses h) i w.writers k)

step-ring :
    (a : Action) (v : Writing) (w : World)
    → ((step_writer a v w).ring.slot_count ≡ w.ring.slot_count)
      × ((step_writer a v w).ring.write_cursor ≡ w.ring.write_cursor)
unfolding step_writer
step-ring (take_cursor bytes) v w = (refl, refl)
step-ring (mark k) v w = (refl, refl)
step-ring (put_byte k j) v w = (ground arith, ground arith)
step-ring (commit k) v w = (ground arith, ground arith)

step-IsFresh :
    (h : SlotHandle) (c k : ℕ) (a : Action) (v : Writing) (w : World)
    → get_elem? w.writers (writer_of a) ≡ some v
    → IsFresh h c k w
    → IsFresh h c k (step_writer a v w)
step-IsFresh h c k a v w at f =
    let m = All-get (Misses h) w.writers (writer_of a) v f.missed at in
    let same = step-ring a v w in
    record {
      shown = ground (step-load_seq h a v w m, f.shown, arith);
      missed = step-Misses h a v w m f.missed;
      place = ground (same.0, f.place, arith);
      begun = ground (same.1, f.begun, arith);
      left = ground (same.0, same.1, f.left, arith);
      count_fits = ground (same.0, f.count_fits, arith);
      room = ground (same.0, f.room, arith);
    }

-- a cursor less than a round after `c` comes to another slot
next_slot :
    (c cursor count slot : ℕ)
    → slot ≡ c % count
    → c < cursor
    → cursor < c + count
    → count < 2 ^ 32
    → (cursor % count % 2 ^ 32 == slot) ≡ false
next_slot c cursor count slot at low high fits =
    let j = cursor - c in
    let whole : c + j ≡ cursor = omega (arith, low) in
    let other = other_slot c j count (omega (arith, low)) (omega (arith, high, low)) in
    let apart : cursor % count ≢ c % count = λ e. other (rw whole e) in
    let inside : cursor % count < count = mod-lt cursor {m = count} (omega (arith, high, low)) in
    ground (arith, at, apart, inside, fits)

fetch-IsFresh :
    (h : SlotHandle) (c k : ℕ) (bytes : List ℕ) (w : World)
    → IsFresh h c (suc k) w
    → IsFresh h c k (fetch_cursor bytes w)
unfolding fetch_cursor reservation
fetch-IsFresh h c k bytes w f = elim (Bool-cases (ltb w.ring.slot_size (length bytes))) [
  | inl o ↦
      rw (o, fetch_cursor)
        (record {
          shown = f.shown;
          missed = f.missed;
          place = f.place;
          begun = f.begun;
          left = omega (arith, f.left);
          count_fits = f.count_fits;
          room = f.room;
        })
  | inr o ↦
      rw (o, fetch_cursor)
        (record {
          shown = f.shown;
          missed = (
            next_slot c w.ring.write_cursor w.ring.slot_count h.slot_index f.place f.begun
                (omega (arith, f.left)) f.count_fits,
            f.missed,
          );
          place = f.place;
          begun = omega (arith, f.begun, f.left, f.room);
          left = omega (arith, f.begun, f.left, f.room);
          count_fits = f.count_fits;
          room = f.room;
        })
]

act-IsFresh :
    (h : SlotHandle) (c k n : ℕ) (a : Action) (w : World)
    → n ≡ takes (a ∷ []) + k
    → IsFresh h c n w
    → IsFresh h c k (act a w)
unfolding act
act-IsFresh h c k n (take_cursor bytes) w e f =
    let same : n ≡ suc k = omega (arith, e) in fetch-IsFresh h c k bytes w (rw⁻¹ same f)
act-IsFresh h c k n a w e f =
    let same : n ≡ k = omega (arith, e) in
    elim (Option-cases (get_elem? w.writers (writer_of a))) [
      | inl out ↦ rw (out, act) (rw⁻¹ same f)
      | inr (v, at) ↦ rw (at, act) (step-IsFresh h c k a v w at (rw⁻¹ same f))
    ]

takes-cons : (a : Action) (acts : List Action) → takes (a ∷ acts) ≡ takes (a ∷ []) + takes acts
takes-cons (take_cursor bytes) acts = omega arith
takes-cons (mark k) acts = omega arith
takes-cons (put_byte k j) acts = omega arith
takes-cons (commit k) acts = omega arith

pub run-IsFresh :
    (h : SlotHandle) (c k n : ℕ) (acts : List Action) (w : World)
    → n ≡ takes acts + k
    → IsFresh h c n w
    → IsFresh h c k (run acts w)
unfolding run
run-IsFresh h c k n [] w e f = let same : n ≡ k = omega (arith, e) in rw⁻¹ same f
run-IsFresh h c k n (a ∷ acts) w e f =
    run-IsFresh h c k (takes acts + k) acts (act a w) refl
      (act-IsFresh h c (takes acts + k) n a w (omega (arith, e, takes-cons a acts)) f)

pub copy_out-IsFresh :
    (h : SlotHandle) (c k n at : ℕ) (groups : List (List Action)) (w : World)
    → n ≡ total_takes groups + k
    → IsFresh h c n w
    → IsFresh h c k (copy_out h at groups w).1
unfolding copy_out
copy_out-IsFresh h c k n at [] w e f = let same : n ≡ k = omega (arith, e) in rw⁻¹ same f
copy_out-IsFresh h c k n at (acts ∷ groups) w e f =
    copy_out-IsFresh h c k (total_takes groups + k) (at + 1) groups (run acts w) refl
      (run-IsFresh h c (total_takes groups + k) n acts w (omega (arith, e)) f)
