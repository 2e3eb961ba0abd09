-- ===== src/ShmRing/Torn.antt =====
-- A read of the ring of src/shm_ring.cc among the steps of writers is never torn.
use rf_trans_v.Base.{
  ◌≡◌, refl, sym, ◌⊎◌, inl, inr, ◌∙◌, ℕ, ◌+◌, ◌*◌, ◌^◌, ◌<◌, ◌≤◌, none, some, List, [], ◌∷◌, ◌++◌,
  arith, get_elem?, length, length-append,
}
use rf_trans_v.ShmRing.{Ring, SlotHandle, take, finish_read, load_seq, write}
use rf_trans_v.ShmRing.Sequential.{IsRing, handle_of, after_write, write-eq}
use rf_trans_v.ShmRing.Laps.{Since-own}
use rf_trans_v.ShmRing.Threads.{World, Action, run, byte_at, copy_out, read_among}
use rf_trans_v.ShmRing.Guard.{HasRoom, IsIntact, IsPassed}
use rf_trans_v.ShmRing.Runs.{Good, Kept, run-Good}

get_elem?-take :
    (front rest payload : List ℕ) (b : ℕ)
    → take (length (front ++ b ∷ rest)) payload ≡ front ++ b ∷ rest
    → get_elem? payload (length front) ≡ some b
unfolding take
get_elem?-take [] rest [] b h = ground (arith, h)
get_elem?-take [] rest (c ∷ payload) b h = ground (arith, h)
get_elem?-take (f ∷ front) rest [] b h = ground (arith, h)
get_elem?-take (f ∷ front) rest (c ∷ payload) b h =
    get_elem?-take front rest payload b (ground (arith, h))

byte_at-IsIntact :
    (h : SlotHandle) (front rest : List ℕ) (b : ℕ) (w : World)
    → IsIntact h (front ++ b ∷ rest) w
    → byte_at h (length front) w ≡ b
unfolding byte_at
byte_at-IsIntact h front rest b w p =
    ground (arith, p.there, get_elem?-take front rest p.slot.payload b p.shows)

intact_or_IsPassed :
    (h : SlotHandle) (bytes : List ℕ) (w : World) → IsIntact h bytes w → ¬ IsPassed h w
intact_or_IsPassed h bytes w p q = ground (arith, p.there, q.there, p.same, q.later)

still_shown :
    (h : SlotHandle) (bytes : List ℕ) (w : World)
    → Good h bytes w
    → ¬ IsPassed h w
    → IsIntact h bytes w
still_shown h bytes w (inl p) stays = p
still_shown h bytes w (inr q) stays = ground (arith, stays q)

cons_eq : {b c : ℕ} {bs cs : List ℕ} → b ≡ c → bs ≡ cs → (b ∷ bs) ≡ (c ∷ cs)
cons_eq h k = cc

-- the number of steps in some groups
abbrev pub total : List (List Action) → ℕ
total [] = 0
total (acts ∷ groups) = length acts + total groups

append_one : (front rest : List ℕ) (b : ℕ) → (front ++ b ∷ []) ++ rest ≡ front ++ b ∷ rest
append_one [] rest b = refl
append_one (f ∷ front) rest b = ground (arith, append_one front rest b)

-- What is read from `at` on, of bytes whose rest from there is `rest`.
copy_out-Good :
    (h : SlotHandle) (n k at : ℕ) (bytes front rest : List ℕ) (groups : List (List Action))
    (w : World)
    → bytes ≡ front ++ rest
    → at ≡ length front
    → length groups ≡ length rest
    → k ≡ total groups + n
    → HasRoom h k w
    → Good h bytes w
    → Kept h bytes n w (copy_out h at groups w).1
      × (IsIntact h bytes (copy_out h at groups w).1 → (copy_out h at groups w).0 ≡ rest)
unfolding copy_out
copy_out-Good h n k at bytes front [] [] w f s l e r g =
    let same : k ≡ n = omega (arith, e) in ((rw⁻¹ same r, g, λ p. p), λ i. refl)
copy_out-Good h n k at bytes front (b ∷ rest) [] w f s l e r g = ground (arith, l)
copy_out-Good h n k at bytes front [] (acts ∷ groups) w f s l e r g = ground (arith, l)
copy_out-Good h n k at bytes front (b ∷ rest) (acts ∷ groups) w f s l e r g =
    let w1 = run acts w in
    let one = run-Good h (total groups + n) k bytes acts w (omega (arith, e)) r g in
    let more =
      copy_out-Good h n (total groups + n) (at + 1) bytes (front ++ b ∷ []) rest groups w1
        (f ∙ sym (append_one front rest b)) (omega (arith, s, length-append front (b ∷ [])))
        (omega (arith, l)) refl one.0 one.1 in
    let last = (copy_out h (at + 1) groups w1).1 in
    (
      (more.0.0, more.0.1, λ p. more.0.2 (one.2 p)),
      λ i.
          let still : IsIntact h bytes w1 =
            still_shown h bytes w1 one.1 (λ p. intact_or_IsPassed h bytes last i (more.0.2 p)) in
          cons_eq (rw s (byte_at-IsIntact h front rest b w1 (rw⁻¹ f still))) (more.1 i),
    )

-- A read among the steps of other threads, of a message that no write to its slot had passed when
-- it began, returns exactly the message or is refused: bytes of another message never show.
pub read_among-eq :
    (h : SlotHandle) (bytes : List ℕ) (groups : List (List Action)) (acts : List Action) (w : World)
    → IsIntact h bytes w
    → HasRoom h (total groups + length acts) w
    → length groups ≡ length bytes
    → (read_among h groups acts w ≡ some bytes) ⊎ (read_among h groups acts w ≡ none)
unfolding read_among finish_read load_seq
read_among-eq h bytes groups acts w p r l =
    let out = copy_out h 0 groups w in
    let copied =
      copy_out-Good h (length acts) (total groups + length acts) 0 bytes [] bytes groups w refl refl
        l refl r (inl p) in
    let after = run-Good h 0 (length acts) bytes acts out.1 (omega arith) copied.0.0 copied.0.1 in
    elim after.1 [
      | inl i ↦
          let still : IsIntact h bytes out.1 =
            still_shown h bytes out.1 copied.0.1
              (λ q. intact_or_IsPassed h bytes (run acts out.1) i (after.2 q)) in
          ground (arith, copied.1 still, i.there)
      | inr q ↦ inr (ground (arith, q.there, q.later))
    ]

-- After a write by the only thread, its slot shows the message.
pub write-IsIntact :
    (bytes : List ℕ) (r : Ring)
    → IsRing r
    → length bytes ≤ r.slot_size
    → 2 * r.write_cursor + 2 < 2 ^ 64
    → IsIntact
        (handle_of bytes r.write_cursor r)
        bytes
        (record { ring = after_write bytes r; writers = [] })
write-IsIntact bytes r v fits room =
    let (s, here, shown) = Since-own bytes r v fits room in
    elim shown [
      | inl k ↦ record { slot = s; there = here; same = k.1; shows = k.2; waiting = tt }
      | inr k ↦ ground (arith, v.count, k)
    ]

-- A message that fits a slot is written in a well-formed ring where no other write is under way; then
-- a reader reads it by its handle while any number of other threads begin writes: they take cursors,
-- mark slots, copy bytes in and commit, in any order. As long as no sequence number can wrap, the
-- reader gets exactly the message, or is refused.
pub read_among-write :
    (bytes : List ℕ) (r : Ring) (groups : List (List Action)) (acts : List Action)
    → IsRing r
    → length bytes ≤ r.slot_size
    → length groups ≡ length bytes
    → 2 * (r.write_cursor + total groups + length acts + 2) < 2 ^ 64
    → let done = write bytes (length bytes) r in
      (read_among done.1 groups acts (record { ring = done.0; writers = [] }) ≡ some bytes)
      ⊎ (read_among done.1 groups acts (record { ring = done.0; writers = [] }) ≡ none)
read_among-write bytes r groups acts v fits l room =
    let one : 2 * r.write_cursor + 2 < 2 ^ 64 = omega (arith, room) in
    rw (write-eq bytes r v fits one) (
      read_among-eq (handle_of bytes r.write_cursor r) bytes groups acts
        (record { ring = after_write bytes r; writers = [] }) (write-IsIntact bytes r v fits one)
        (record { room = omega (arith, room); past = omega arith; ends = tt }) l)
