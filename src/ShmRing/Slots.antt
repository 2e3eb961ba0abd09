-- ===== src/ShmRing/Slots.antt =====
-- The slots of a ring: what a write to one of them shows at the others.
use rf_trans_v.Base.{
  ◌≡◌, refl, ◌∙◌, ℕ, zero, suc, ◌<◌, none, some, inl, inr, Option-cases, true, ◌+◌, ◌%◌, ◌^◌, List,
  [], ◌∷◌, arith, ◌==◌, if◌then◌else◌, get_elem?, set, length, is_some,
}
use mathlib.Core.Option.{map}
use rf_trans_v.ShmRing.{Slot, ReservedSlot, store_seq, copy_in, overwrite, commit_slots}

module _ {ℓ} {A : Type ℓ} where
  pub get_elem?-set :
      (xs : List A) (i j : ℕ) (v : A)
      → get_elem? (set xs i v) j
        ≡ (if i == j then (if is_some (get_elem? xs i) then some v else none) else get_elem? xs j)
  get_elem?-set [] i j v = ground arith
  get_elem?-set (x ∷ xs) zero zero v = refl
  get_elem?-set (x ∷ xs) zero (suc j) v = ground arith
  get_elem?-set (x ∷ xs) (suc i) zero v = ground arith
  get_elem?-set (x ∷ xs) (suc i) (suc j) v = ground (arith, get_elem?-set xs i j v)

  pub length-set : (xs : List A) (i : ℕ) (v : A) → length (set xs i v) ≡ length xs
  length-set [] i v = refl
  length-set (x ∷ xs) zero v = refl
  length-set (x ∷ xs) (suc i) v = omega (arith, length-set xs i v)

  pub is_some-get_elem? : (xs : List A) (i : ℕ) → i < length xs → is_some (get_elem? xs i) ≡ true
  is_some-get_elem? [] i h = ground (arith, h)
  is_some-get_elem? (x ∷ xs) zero h = refl
  is_some-get_elem? (x ∷ xs) (suc i) h = ground (arith, is_some-get_elem? xs i)

-- what a slot holds
pub get_elem?-store_seq :
    (i seq j : ℕ) (slots : List Slot)
    → get_elem? (store_seq i seq slots) j ≡ (
        if i == j
        then map (λ (s : Slot). record s { seq = seq }) (get_elem? slots i)
        else get_elem? slots j)
unfolding store_seq
get_elem?-store_seq i seq j slots = elim (Option-cases (get_elem? slots i)) [
  | inl out ↦ ground (arith, out)
  | inr (s, at) ↦ ground (arith, at, get_elem?-set slots i j (record s { seq = seq }))
]

pub get_elem?-copy_in :
    (i j : ℕ) (bytes : List ℕ) (slots : List Slot)
    → get_elem? (copy_in i bytes slots) j ≡ (
        if i == j
        then map
            (λ (s : Slot). record s { payload = overwrite bytes s.payload })
            (get_elem? slots i)
        else get_elem? slots j)
unfolding copy_in
get_elem?-copy_in i j bytes slots = elim (Option-cases (get_elem? slots i)) [
  | inl out ↦ ground (arith, out)
  | inr (s, at) ↦
      ground (arith, at, get_elem?-set slots i j (record s { payload = overwrite bytes s.payload }))
]

pub get_elem?-commit_slots :
    (v : ReservedSlot) (size j : ℕ) (slots : List Slot)
    → get_elem? (commit_slots v size slots) j ≡ (
        if v.slot_index == j
        then map
            (λ (s : Slot). record s { size = size % 2 ^ 32; seq = (v.begin_seq + 1) % 2 ^ 64 })
            (get_elem? slots v.slot_index)
        else get_elem? slots j)
unfolding commit_slots
get_elem?-commit_slots v size j slots = elim (Option-cases (get_elem? slots v.slot_index)) [
  | inl out ↦ ground (arith, out)
  | inr (s, at) ↦
      let i = v.slot_index in
      let sized = record s { size = size % 2 ^ 32 } in
      ground (
        arith,
        at,
        get_elem?-store_seq i ((v.begin_seq + 1) % 2 ^ 64) j (set slots i sized),
        get_elem?-set slots i j sized,
        get_elem?-set slots i i sized,
      )
]

-- the slots after a whole write: the number of the beginning, the bytes, and the end
abbrev pub written : ReservedSlot → List ℕ → ℕ → List Slot → List Slot
written v bytes size slots =
    commit_slots v size (copy_in v.slot_index bytes (store_seq v.slot_index v.begin_seq slots))

pub get_elem?-written :
    (v : ReservedSlot) (bytes : List ℕ) (size j : ℕ) (slots : List Slot)
    → get_elem? (written v bytes size slots) j ≡ (
        if v.slot_index == j
        then map
            (λ (s : Slot). record s {
              size = size % 2 ^ 32;
              seq = (v.begin_seq + 1) % 2 ^ 64;
              payload = overwrite bytes s.payload;
            })
            (get_elem? slots v.slot_index)
        else get_elem? slots j)
get_elem?-written v bytes size j slots =
    let i = v.slot_index in
    let begun = store_seq i v.begin_seq slots in
    ground (
      arith,
      Option-cases (get_elem? slots i),
      get_elem?-commit_slots v size j (copy_in i bytes begun),
      get_elem?-copy_in i i bytes begun,
      get_elem?-copy_in i j bytes begun,
      get_elem?-store_seq i v.begin_seq i slots,
      get_elem?-store_seq i v.begin_seq j slots,
    )

length-store_seq : (i seq : ℕ) (slots : List Slot) → length (store_seq i seq slots) ≡ length slots
unfolding store_seq
length-store_seq i seq slots = elim (Option-cases (get_elem? slots i)) [
  | inl out ↦ ground (arith, out)
  | inr (s, at) ↦ ground (arith, at, length-set slots i (record s { seq = seq }))
]

length-copy_in :
    (i : ℕ) (bytes : List ℕ) (slots : List Slot) → length (copy_in i bytes slots) ≡ length slots
unfolding copy_in
length-copy_in i bytes slots = elim (Option-cases (get_elem? slots i)) [
  | inl out ↦ ground (arith, out)
  | inr (s, at) ↦
      ground (arith, at, length-set slots i (record s { payload = overwrite bytes s.payload }))
]

length-commit_slots :
    (v : ReservedSlot) (size : ℕ) (slots : List Slot)
    → length (commit_slots v size slots) ≡ length slots
unfolding commit_slots
length-commit_slots v size slots = elim (Option-cases (get_elem? slots v.slot_index)) [
  | inl out ↦ ground (arith, out)
  | inr (s, at) ↦
      let sized = record s { size = size % 2 ^ 32 } in
      ground (
        arith,
        at,
        length-set slots v.slot_index sized,
        length-store_seq v.slot_index ((v.begin_seq + 1) % 2 ^ 64) (set slots v.slot_index sized),
      )
]

pub length-written :
    (v : ReservedSlot) (bytes : List ℕ) (size : ℕ) (slots : List Slot)
    → length (written v bytes size slots) ≡ length slots
length-written v bytes size slots =
    let begun = store_seq v.slot_index v.begin_seq slots in
    length-commit_slots v size (copy_in v.slot_index bytes begun)
    ∙ length-copy_in v.slot_index bytes begun
    ∙ length-store_seq v.slot_index v.begin_seq slots
