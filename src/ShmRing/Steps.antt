-- ===== src/ShmRing/Steps.antt =====
-- One step of a writer, against the slot of a handle.
use rf_trans_v.Base.{
  ◌≡◌, ◌⊎◌, inl, inr, ℕ, ◌+◌, ◌%◌, ◌^◌, ◌<◌, true, false, some, Option-cases, Bool-cases, List,
  arith, ◌==◌, get_elem?, set, length,
}
use rf_trans_v.ShmRing.{SlotHandle}
use rf_trans_v.ShmRing.Slots.{get_elem?-store_seq, get_elem?-commit_slots}
use rf_trans_v.ShmRing.Threads.{
  Writing, World, Action, take_cursor, mark, put_byte, commit, step_writer, writer_of,
}
use rf_trans_v.ShmRing.Guard.{
  All-get, All-set, All-drop_at, get_elem?-put_payload, Later, Waiting, Ends, HasRoom, IsIntact,
  IsPassed, Waiting-Later, All-Later,
}

-- a slot whose number has passed stays so
pub step-IsPassed :
    (h : SlotHandle) (n : ℕ) (a : Action) (v : Writing) (w : World)
    → get_elem? w.writers (writer_of a) ≡ some v
    → HasRoom h n w
    → IsPassed h w
    → IsPassed h (step_writer a v w)
unfolding step_writer
step-IsPassed h n (take_cursor bytes) v w at r p = p
step-IsPassed h n (mark k) v w at r p =
    let late = All-get (Later h) w.writers k v p.writes at in
    let next =
      get_elem?-store_seq v.reserved.slot_index v.reserved.begin_seq h.slot_index w.ring.slots in
    elim (Bool-cases (v.reserved.slot_index == h.slot_index)) [
      | inl hit ↦ record {
        slot = record p.slot { seq = v.reserved.begin_seq };
        there = ground (arith, next, hit, p.there);
        later = ground (arith, late, hit);
        writes = All-set (Later h) w.writers k (record v { marked = true }) p.writes late;
      }
      | inr miss ↦ record {
        slot = p.slot;
        there = ground (arith, next, miss, p.there);
        later = p.later;
        writes = All-set (Later h) w.writers k (record v { marked = true }) p.writes late;
      }
    ]
step-IsPassed h n (put_byte k j) v w at r p = elim (Option-cases (get_elem? v.bytes j)) [
  | inl out ↦ rw (out, step_writer) p
  | inr (byte, is) ↦
      let next = get_elem?-put_payload v.reserved.slot_index j byte h.slot_index w.ring.slots in
      elim (Bool-cases v.marked) [
        | inr o ↦ rw (is, o, step_writer) p
        | inl o ↦ elim (Bool-cases (v.reserved.slot_index == h.slot_index)) [
          | inl hit ↦
              rw (is, o, step_writer)
                (record {
                  slot = record p.slot { payload = set p.slot.payload j byte };
                  there = ground (arith, next, hit, p.there);
                  later = p.later;
                  writes = p.writes;
                })
          | inr miss ↦
              rw (is, o, step_writer)
                (record {
                  slot = p.slot;
                  there = ground (arith, next, miss, p.there);
                  later = p.later;
                  writes = p.writes;
                })
        ]
      ]
]
step-IsPassed h n (commit k) v w at r p =
    let late = All-get (Later h) w.writers k v p.writes at in
    let end : v.reserved.begin_seq + 1 < 2 ^ 64 = All-get Ends w.writers k v r.ends at in
    let next = get_elem?-commit_slots v.reserved (length v.bytes) h.slot_index w.ring.slots in
    elim (Bool-cases v.marked) [
      | inr o ↦ rw (o, step_writer) p
      | inl o ↦ elim (Bool-cases (v.reserved.slot_index == h.slot_index)) [
        | inl hit ↦
            rw (o, step_writer)
              (record {
                slot = record p.slot {
                  size = length v.bytes % 2 ^ 32;
                  seq = (v.reserved.begin_seq + 1) % 2 ^ 64;
                };
                there = ground (arith, next, hit, p.there);
                later = ground (arith, late, hit, end);
                writes = All-drop_at (Later h) k w.writers p.writes;
              })
        | inr miss ↦
            rw (o, step_writer)
              (record {
                slot = p.slot;
                there = ground (arith, next, miss, p.there);
                later = p.later;
                writes = All-drop_at (Later h) k w.writers p.writes;
              })
      ]
    ]

-- A slot that shows the message shows it after the step, or its number has passed.
pub step-IsIntact :
    (h : SlotHandle) (bytes : List ℕ) (a : Action) (v : Writing) (w : World)
    → get_elem? w.writers (writer_of a) ≡ some v
    → IsIntact h bytes w
    → IsIntact h bytes (step_writer a v w) ⊎ IsPassed h (step_writer a v w)
unfolding step_writer
step-IsIntact h bytes (take_cursor more) v w at p = inl p
step-IsIntact h bytes (mark k) v w at p =
    let wait = All-get (Waiting h) w.writers k v p.waiting at in
    let late = Waiting-Later h v wait in
    let next =
      get_elem?-store_seq v.reserved.slot_index v.reserved.begin_seq h.slot_index w.ring.slots in
    elim (Bool-cases (v.reserved.slot_index == h.slot_index)) [
      | inl hit ↦ inr (record {
        slot = record p.slot { seq = v.reserved.begin_seq };
        there = ground (arith, next, hit, p.there);
        later = ground (arith, late, hit);
        writes =
            All-set (Later h) w.writers k (record v { marked = true })
              (All-Later h w.writers p.waiting) late;
      })
      | inr miss ↦ inl (record {
        slot = p.slot;
        there = ground (arith, next, miss, p.there);
        same = p.same;
        shows = p.shows;
        waiting = All-set (Waiting h) w.writers k (record v { marked = true }) p.waiting (inl miss);
      })
    ]
step-IsIntact h bytes (put_byte k j) v w at p = elim (Option-cases (get_elem? v.bytes j)) [
  | inl out ↦ rw (out, step_writer) (inl p)
  | inr (byte, is) ↦
      let wait = All-get (Waiting h) w.writers k v p.waiting at in
      let next = get_elem?-put_payload v.reserved.slot_index j byte h.slot_index w.ring.slots in
      elim (Bool-cases v.marked) [
        | inr o ↦ rw (is, o, step_writer) (inl p)
        | inl o ↦
            let miss : (v.reserved.slot_index == h.slot_index) ≡ false = ground (arith, wait, o) in
            rw (is, o, step_writer)
              (inl (record {
                slot = p.slot;
                there = ground (arith, next, miss, p.there);
                same = p.same;
                shows = p.shows;
                waiting = p.waiting;
              }))
      ]
]
step-IsIntact h bytes (commit k) v w at p =
    let wait = All-get (Waiting h) w.writers k v p.waiting at in
    let next = get_elem?-commit_slots v.reserved (length v.bytes) h.slot_index w.ring.slots in
    elim (Bool-cases v.marked) [
      | inr o ↦ rw (o, step_writer) (inl p)
      | inl o ↦
          let miss : (v.reserved.slot_index == h.slot_index) ≡ false = ground (arith, wait, o) in
          rw (o, step_writer)
            (inl (record {
              slot = p.slot;
              there = ground (arith, next, miss, p.there);
              same = p.same;
              shows = p.shows;
              waiting = All-drop_at (Waiting h) k w.writers p.waiting;
            }))
    ]
