-- ===== src/ShmRing/Runs.antt =====
-- Any run of writers, against the slot of a handle of the ring of src/shm_ring.cc.
use rf_trans_v.Base.{
  ◌≡◌, refl, ◌⊎◌, inl, inr, ℕ, zero, suc, ◌+◌, some, Option-cases, Bool-cases, List, [], ◌∷◌, arith,
  ltb, get_elem?, length,
}
use rf_trans_v.ShmRing.{SlotHandle, reservation}
use rf_trans_v.ShmRing.Threads.{
  Writing, World, Action, take_cursor, fetch_cursor, step_writer, writer_of, act, run,
}
use rf_trans_v.ShmRing.Guard.{HasRoom, IsIntact, IsPassed, fetch-HasRoom, step-HasRoom}
use rf_trans_v.ShmRing.Steps.{step-IsIntact, step-IsPassed}

fetch-IsPassed :
    (h : SlotHandle) (n : ℕ) (bytes : List ℕ) (w : World)
    → HasRoom h (suc n) w
    → IsPassed h w
    → IsPassed h (fetch_cursor bytes w)
unfolding fetch_cursor reservation
fetch-IsPassed h n bytes w r p = elim (Bool-cases (ltb w.ring.slot_size (length bytes))) [
  | inl o ↦ rw (o, fetch_cursor) p
  | inr o ↦
      rw (o, fetch_cursor)
        (record {
          slot = p.slot;
          there = p.there;
          later = p.later;
          writes = (inr (omega (arith, r.room, r.past)), p.writes);
        })
]

fetch-IsIntact :
    (h : SlotHandle) (n : ℕ) (shown bytes : List ℕ) (w : World)
    → HasRoom h (suc n) w
    → IsIntact h shown w
    → IsIntact h shown (fetch_cursor bytes w)
unfolding fetch_cursor reservation
fetch-IsIntact h n shown bytes w r p = elim (Bool-cases (ltb w.ring.slot_size (length bytes))) [
  | inl o ↦ rw (o, fetch_cursor) p
  | inr o ↦
      rw (o, fetch_cursor)
        (record {
          slot = p.slot;
          there = p.there;
          same = p.same;
          shows = p.shows;
          waiting = (inr (omega (arith, r.room, r.past), refl), p.waiting);
        })
]

-- What holds of a world with no step, after a new write and after a step of each write, holds after
-- any action.
act_cases :
    (Q : World → Type 0) (a : Action) (w : World)
    → Q w
    → ((bytes : List ℕ) → Q (fetch_cursor bytes w))
    → ((v : Writing) → get_elem? w.writers (writer_of a) ≡ some v → Q (step_writer a v w))
    → Q (act a w)
unfolding act
act_cases Q (take_cursor bytes) w idle fetched stepped = fetched bytes
act_cases Q a w idle fetched stepped = elim (Option-cases (get_elem? w.writers (writer_of a))) [
  | inl out ↦ rw (out, act) idle
  | inr (v, at) ↦ rw (at, act) (stepped v at)
]

pub act-HasRoom :
    (h : SlotHandle) (n : ℕ) (a : Action) (w : World) → HasRoom h (suc n) w → HasRoom h n (act a w)
act-HasRoom h n a w r =
    act_cases (HasRoom h n) a w
      (record { room = omega (arith, r.room); past = r.past; ends = r.ends })
      (λ bytes. fetch-HasRoom h n bytes w r) (λ v at. step-HasRoom h n a v w at r)

pub act-IsPassed :
    (h : SlotHandle) (n : ℕ) (a : Action) (w : World)
    → HasRoom h (suc n) w
    → IsPassed h w
    → IsPassed h (act a w)
act-IsPassed h n a w r p =
    act_cases (IsPassed h) a w p (λ bytes. fetch-IsPassed h n bytes w r p)
      (λ v at. step-IsPassed h (suc n) a v w at r p)

-- The slot shows the message, or its number has passed.
abbrev pub Good : SlotHandle → List ℕ → World → Type 0
Good h bytes w = IsIntact h bytes w ⊎ IsPassed h w

pub act-Good :
    (h : SlotHandle) (n : ℕ) (bytes : List ℕ) (a : Action) (w : World)
    → HasRoom h (suc n) w
    → Good h bytes w
    → Good h bytes (act a w)
act-Good h n bytes a w r (inl p) =
    act_cases (Good h bytes) a w (inl p) (λ more. inl (fetch-IsIntact h n bytes more w r p))
      (λ v at. step-IsIntact h bytes a v w at p)
act-Good h n bytes a w r (inr p) = inr (act-IsPassed h n a w r p)

-- A run keeps both, and that a number has passed.
abbrev pub Kept : SlotHandle → List ℕ → ℕ → World → World → Type 0
Kept h bytes n w after = HasRoom h n after × Good h bytes after × (IsPassed h w → IsPassed h after)

pub run-Good :
    (h : SlotHandle) (n k : ℕ) (bytes : List ℕ) (acts : List Action) (w : World)
    → k ≡ length acts + n
    → HasRoom h k w
    → Good h bytes w
    → Kept h bytes n w (run acts w)
unfolding run
run-Good h n k bytes [] w e r g = let same : k ≡ n = omega (arith, e) in (rw⁻¹ same r, g, λ p. p)
run-Good h n zero bytes (a ∷ acts) w e r g = ground (arith, e)
run-Good h n (suc k) bytes (a ∷ acts) w e r g =
    let rest =
      run-Good h n k bytes acts (act a w) (omega (arith, e)) (act-HasRoom h k a w r)
        (act-Good h k bytes a w r g) in
    (rest.0, rest.1, λ p. rest.2 (act-IsPassed h k a w r p))
