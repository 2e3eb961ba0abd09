-- ===== src/ShmRing/Guard.antt =====
-- What holds of the slot of a handle while other threads write to the ring: it still shows the
-- message, with its number, or the number has passed on for ever.
use rf_trans_v.Base.{
  ◌≡◌, ◌⊎◌, inl, inr, ℕ, zero, suc, ◌+◌, ◌*◌, ◌^◌, ◌<◌, ◌≤◌, true, false, some, Option-cases,
  Bool-cases, List, [], ◌∷◌, arith, ◌==◌, ltb, if◌then◌else◌, get_elem?, set, length, All,
}
use mathlib.Core.Option.{map, some-injective}
use mathlib.Core.Path.{subst}
use rf_trans_v.ShmRing.{Slot, SlotHandle, reservation, take}
use rf_trans_v.ShmRing.Slots.{get_elem?-set}
use rf_trans_v.ShmRing.Threads.{
  Writing, World, Action, take_cursor, mark, put_byte, commit, put_payload, drop_at, fetch_cursor,
  step_writer, writer_of,
}

module _ {A : Type 0} (Q : A → Type 0) where
  pub All-get : (xs : List A) (k : ℕ) (x : A) → All Q xs → get_elem? xs k ≡ some x → Q x
  All-get [] k x h e = cc
  All-get (y ∷ xs) zero x h e = subst Q (some-injective y x e) h.0
  All-get (y ∷ xs) (suc k) x h e = All-get xs k x h.1 e

  pub All-set : (xs : List A) (k : ℕ) (x : A) → All Q xs → Q x → All Q (set xs k x)
  All-set [] k x h q = h
  All-set (y ∷ xs) zero x h q = (q, h.1)
  All-set (y ∷ xs) (suc k) x h q = (h.0, All-set xs k x h.1 q)

module _ (Q : Writing → Type 0) where
  pub All-drop_at : (k : ℕ) (ws : List Writing) → All Q ws → All Q (drop_at k ws)
  All-drop_at k [] h = h
  All-drop_at zero (w ∷ ws) h = h.1
  All-drop_at (suc k) (w ∷ ws) h = (h.0, All-drop_at k ws h.1)

pub get_elem?-put_payload :
    (i at byte j : ℕ) (slots : List Slot)
    → get_elem? (put_payload i at byte slots) j ≡ (
        if i == j
        then map (λ (s : Slot). record s { payload = set s.payload at byte }) (get_elem? slots i)
        else get_elem? slots j)
unfolding put_payload
get_elem?-put_payload i at byte j slots = elim (Option-cases (get_elem? slots i)) [
  | inl out ↦ ground (arith, out)
  | inr (s, here) ↦
      ground (arith, here, get_elem?-set slots i j (record s { payload = set s.payload at byte }))
]

-- A write that is not to the slot of the handle, or has a later number.
abbrev pub Later : SlotHandle → Writing → Type 0
Later h v = ((v.reserved.slot_index == h.slot_index) ≡ false) ⊎ (h.seq < v.reserved.begin_seq)

-- A write that is not to the slot, or has a later number and did not mark the slot yet.
abbrev pub Waiting : SlotHandle → Writing → Type 0
Waiting h v =
    ((v.reserved.slot_index == h.slot_index) ≡ false)
    ⊎ ((h.seq < v.reserved.begin_seq) × (v.marked ≡ false))

abbrev pub Ends : Writing → Type 0
Ends v = v.reserved.begin_seq + 1 < 2 ^ 64

-- The numbers of the handle and of all writes, with room for `n` more writes.
pub record HasRoom (h : SlotHandle) (n : ℕ) (w : World) : Type 0 where
  pub room : 2 * (w.ring.write_cursor + n) + 2 < 2 ^ 64
  pub past : h.seq ≤ 2 * w.ring.write_cursor
  pub ends : All Ends w.writers

-- The slot shows the message of the handle, and no write has touched it since.
pub record IsIntact (h : SlotHandle) (bytes : List ℕ) (w : World) : Type 0 where
  pub slot : Slot
  pub there : get_elem? w.ring.slots h.slot_index ≡ some slot
  pub same : slot.seq ≡ h.seq
  pub shows : take (length bytes) slot.payload ≡ bytes
  pub waiting : All (Waiting h) w.writers

-- The slot was given to a later write.
pub record IsPassed (h : SlotHandle) (w : World) : Type 0 where
  pub slot : Slot
  pub there : get_elem? w.ring.slots h.slot_index ≡ some slot
  pub later : h.seq < slot.seq
  pub writes : All (Later h) w.writers

pub Waiting-Later : (h : SlotHandle) (v : Writing) → Waiting h v → Later h v
Waiting-Later h v (inl o) = inl o
Waiting-Later h v (inr k) = inr k.0

pub All-Later : (h : SlotHandle) (ws : List Writing) → All (Waiting h) ws → All (Later h) ws
All-Later h [] k = tt
All-Later h (v ∷ ws) k = (Waiting-Later h v k.0, All-Later h ws k.1)

-- every action keeps the room for the actions after it
pub fetch-HasRoom :
    (h : SlotHandle) (n : ℕ) (bytes : List ℕ) (w : World)
    → HasRoom h (suc n) w
    → HasRoom h n (fetch_cursor bytes w)
unfolding fetch_cursor reservation
fetch-HasRoom h n bytes w r = elim (Bool-cases (ltb w.ring.slot_size (length bytes))) [
  | inl o ↦ rw o (record { room = omega (arith, r.room); past = r.past; ends = r.ends })
  | inr o ↦ rw o (record {
    room = omega (arith, r.room);
    past = omega (arith, r.room, r.past);
    ends = (omega (arith, r.room), r.ends);
  })
]

pub step-HasRoom :
    (h : SlotHandle) (n : ℕ) (a : Action) (v : Writing) (w : World)
    → get_elem? w.writers (writer_of a) ≡ some v
    → HasRoom h (suc n) w
    → HasRoom h n (step_writer a v w)
unfolding step_writer
step-HasRoom h n (take_cursor bytes) v w at r = record {
  room = omega (arith, r.room);
  past = r.past;
  ends = r.ends;
}
step-HasRoom h n (mark k) v w at r = record {
  room = omega (arith, r.room);
  past = r.past;
  ends =
      All-set Ends w.writers k (record v { marked = true }) r.ends
        (All-get Ends w.writers k v r.ends at);
}
step-HasRoom h n (put_byte k j) v w at r = elim (Option-cases (get_elem? v.bytes j)) [
  | inl out ↦
      rw (out, step_writer) (record { room = omega (arith, r.room); past = r.past; ends = r.ends })
  | inr (byte, is) ↦ elim (Bool-cases v.marked) [
    | inl o ↦
        rw (is, o, step_writer)
          (record { room = omega (arith, r.room); past = r.past; ends = r.ends })
    | inr o ↦
        rw (is, o, step_writer)
          (record { room = omega (arith, r.room); past = r.past; ends = r.ends })
  ]
]
step-HasRoom h n (commit k) v w at r = elim (Bool-cases v.marked) [
  | inl o ↦
      rw (o, step_writer)
        (record {
          room = omega (arith, r.room);
          past = r.past;
          ends = All-drop_at Ends k w.writers r.ends;
        })
  | inr o ↦
      rw (o, step_writer) (record { room = omega (arith, r.room); past = r.past; ends = r.ends })
]
