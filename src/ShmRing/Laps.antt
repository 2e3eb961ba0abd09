-- ===== src/ShmRing/Laps.antt =====
-- What a read of the ring of src/shm_ring.cc returns after any number of later writes.
use rf_trans_v.Base.{
  ◌≡◌, ◌≢◌, ◌⊎◌, Bool-cases, ltb→lt, refl, sym, ℕ, ◌+◌, ◌-◌, ◌*◌, ◌%◌, ◌^◌, ◌≤◌, ◌<◌, true, false,
  none, some, inl, inr, Option-cases, List, [], ◌∷◌, arith, ltb, ◌==◌, if◌then◌else◌, get_elem?,
  length, All,
}
use mathlib.Core.Path.{subst}
use rf_trans_v.ShmRing.{Slot, Ring, overwrite, take, write, load_seq, begin_read, finish_read, read}
use rf_trans_v.ShmRing.Slots.{is_some-get_elem?}
use native.Mathlib.Nat.{mod-lt, mod-eq_of_lt, mod-add-mod, add-mod_right, mod-eq-sub-mod}
use rf_trans_v.ShmRing.Sequential.{
  IsRing, slot_of, handle_of, after_write, write-eq, get_elem?-after_write, after_write-IsRing,
  take-overwrite,
}

-- Fewer writes than slots never come back to a slot, and as many do.
pub other_slot : (c k m : ℕ) → 0 < k → k < m → (c + k) % m ≢ c % m
other_slot c k m low high h = elim (Bool-cases (ltb (c % m + k) m)) [
  | inl o ↦ ground (
    arith,
    h,
    o,
    low,
    high,
    mod-add-mod c m k,
    mod-eq_of_lt {n = c % m + k} {m = m} (ltb→lt (c % m + k) m o),
  )
  | inr o ↦
      let x = c % m + k in
      let wide : m ≤ x = ground (arith, o) in
      let small : x - m < m = ground (arith, mod-lt c {m = m} (omega (arith, high))) in
      ground (
        arith,
        h,
        low,
        high,
        wide,
        mod-add-mod c m k,
        mod-eq-sub-mod {n = x} {m = m} wide,
        mod-eq_of_lt {n = x - m} {m = m} small,
      )
]

-- what a slot shows after some writes since the one under the cursor `c`
abbrev pub Since : List ℕ → ℕ → ℕ → Ring → Type 0
Since bytes c n r =
    (s : Slot) × (get_elem? r.slots (slot_of r c) ≡ some s)
    × ((ltb n r.slot_count ≡ true) × (s.seq ≡ 2 * c + 2) × (take (length bytes) s.payload ≡ bytes)
        ⊎ (ltb n r.slot_count ≡ false) × (2 * c + 2 < s.seq))

-- The writes of some messages, one after the other.
abbrev pub write_all : List (List ℕ) → Ring → Ring
write_all [] r = r
write_all (bytes ∷ later) r = write_all later (write bytes (length bytes) r).0

-- Whether the write after `n` later ones comes to the slot of the cursor `c` again.
comes_back :
    (c n m : ℕ)
    → 0 < m
    → (((c + (n + 1)) % m == c % m) ≡ true → ltb (n + 1) m ≡ false)
      × (((c + (n + 1)) % m == c % m) ≡ false → ltb n m ≡ true → ltb (n + 1) m ≡ true)
comes_back c n m low = (
  λ hit. elim (Bool-cases (ltb (n + 1) m)) [
    | inl o ↦ ground (other_slot c (n + 1) m (omega arith) (ltb→lt (n + 1) m o), hit, arith)
    | inr o ↦ o
  ],
  λ miss o. elim (Bool-cases (ltb (n + 1) m)) [
    | inl p ↦ p
    | inr p ↦
        let last : m ≡ n + 1 = ground (arith, o, p) in ground (arith, add-mod_right c m, last, miss)
  ],
)

-- One more write, with all that it needs.
Since-after_write :
    (bytes : List ℕ) (c n : ℕ) (more : List ℕ) (r : Ring)
    → IsRing r
    → r.write_cursor ≡ c + n + 1
    → 2 * r.write_cursor + 2 < 2 ^ 64
    → Since bytes c n r
    → Since bytes c (n + 1) (after_write more r)
Since-after_write bytes c n more r v at room (s, here, k) =
    let m = r.slot_count in
    let next : r.write_cursor ≡ c + (n + 1) = omega (arith, at) in
    let after = get_elem?-after_write more r (slot_of r c) s room here in
    let turn = comes_back c n m v.count in
    elim (Bool-cases (slot_of r r.write_cursor == slot_of r c)) [
      | inl hit ↦ (
        record s {
          size = length more % 2 ^ 32;
          seq = 2 * r.write_cursor + 2;
          payload = overwrite more s.payload;
        },
        ground (arith, after, hit),
        inr (turn.0 (rw⁻¹ next hit), omega (arith, next)),
      )
      | inr miss ↦ (s, ground (arith, after, miss), ground (arith, k, turn.1 (rw⁻¹ next miss)))
    ]

read-Since :
    (bytes : List ℕ) (c n : ℕ) (r : Ring)
    → Since bytes c n r
    → read (handle_of bytes c r) r ≡ (if ltb n r.slot_count then some bytes else none)
unfolding read begin_read finish_read load_seq
read-Since bytes c n r (s, here, inl k) = ground (arith, here, k)
read-Since bytes c n r (s, here, inr k) = ground (arith, here, k)

Since-write_all :
    (bytes : List ℕ) (c n k : ℕ) (later : List (List ℕ)) (r : Ring)
    → IsRing r
    → r.write_cursor ≡ c + n + 1
    → k ≡ n + length later
    → All (λ more. length more ≤ r.slot_size) later
    → 2 * (r.write_cursor + length later) < 2 ^ 64
    → Since bytes c n r
    → Since bytes c k (write_all later r) × ((write_all later r).slot_count ≡ r.slot_count)
Since-write_all bytes c n k [] r v at sum fits room q =
    let same : k ≡ n = omega (arith, sum) in (rw same q, refl)
Since-write_all bytes c n k (more ∷ later) r v at sum fits room q =
    let one : 2 * r.write_cursor + 2 < 2 ^ 64 = omega (arith, room) in
    subst
      (λ x.
        Since bytes c k (write_all later x.0) × ((write_all later x.0).slot_count ≡ r.slot_count))
      (sym (write-eq more r v fits.0 one))
      (Since-write_all bytes c (n + 1) k later (after_write more r)
        (after_write-IsRing more r v one) (omega (arith, at)) (omega (arith, sum)) fits.1
        (omega (arith, room)) (Since-after_write bytes c n more r v at one q))

-- `read-Since` in a ring of `m` slots
abbrev HandleReads : List ℕ → ℕ → ℕ → Ring → ℕ → Type 0
HandleReads bytes c n r m =
    read (record { slot_index = c % m; seq = 2 * c + 2; size = length bytes }) r
    ≡ (if ltb n m then some bytes else none)

-- Just after its own write a slot shows the bytes.
pub Since-own :
    (bytes : List ℕ) (r : Ring)
    → IsRing r
    → length bytes ≤ r.slot_size
    → 2 * r.write_cursor + 2 < 2 ^ 64
    → Since bytes r.write_cursor 0 (after_write bytes r)
Since-own bytes r v fits room =
    let i = slot_of r r.write_cursor in
    let inside : i < length r.slots = ground (arith, mod-lt r.write_cursor v.count, v.slots) in
    elim (Option-cases (get_elem? r.slots i)) [
      | inl out ↦ ground (arith, out, is_some-get_elem? r.slots i inside)
      | inr (s, at) ↦ (
        record s {
          size = length bytes % 2 ^ 32;
          seq = 2 * r.write_cursor + 2;
          payload = overwrite bytes s.payload;
        },
        ground (arith, get_elem?-after_write bytes r i s room at),
        inl (
          ground (arith, v.count),
          refl,
          take-overwrite bytes s.payload (omega (arith, fits, v.payloads i s at)),
        ),
      )
    ]

-- A message that fits a slot is read back by its handle as long as fewer messages than slots were
-- written after it, and from then on the read is refused: it never returns another message's bytes.
pub read-write_all :
    (bytes : List ℕ) (later : List (List ℕ)) (r : Ring)
    → IsRing r
    → length bytes ≤ r.slot_size
    → All (λ more. length more ≤ r.slot_size) later
    → 2 * (r.write_cursor + length later + 1) < 2 ^ 64
    → read (write bytes (length bytes) r).1 (write_all later (write bytes (length bytes) r).0)
      ≡ (if ltb (length later) r.slot_count then some bytes else none)
read-write_all bytes later r v fits all room =
    let one : 2 * r.write_cursor + 2 < 2 ^ 64 = omega (arith, room) in
    let c = r.write_cursor in
    let after = after_write bytes r in
    let held =
      Since-write_all bytes c 0 (length later) later after (after_write-IsRing bytes r v one)
        (omega arith) (omega arith) all (omega (arith, room)) (Since-own bytes r v fits one) in
    rw (write-eq bytes r v fits one) (
      subst (HandleReads bytes c (length later) (write_all later after)) held.1
        (read-Since bytes c (length later) (write_all later after) held.0))
