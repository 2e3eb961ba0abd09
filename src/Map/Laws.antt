-- ===== src/Map/Laws.antt =====
-- What a lookup finds after each operation.
use text.Mathlib.TextEquality.{path_by_compare}
use rf_trans_v.Base.{String, ◌≡◌, refl, none, some, [], ◌∷◌, arith, str_eq, eq_iff, if◌then◌else◌}
use rf_trans_v.Map.{Map, find, find_or, assign, emplace, erase}

module _ {ℓ} {V : Type ℓ} where
  pub find-assign :
      (k j : String) (v : V) (m : Map V)
      → find j (assign k v m) ≡ (if str_eq k j then some v else find j m)
  unfolding find assign
  find-assign k j v [] = refl
  find-assign k j v ((i, w) ∷ m) =
      ground (arith, eq_iff k j, eq_iff i k, eq_iff i j, path_by_compare k i, find-assign k j v m)

  pub find-erase :
      (k j : String) (m : Map V) → find j (erase k m) ≡ (if str_eq k j then none else find j m)
  unfolding find erase
  find-erase k j [] = ground arith
  find-erase k j ((i, w) ∷ m) = ground (arith, eq_iff k j, eq_iff i k, eq_iff i j, find-erase k j m)

  pub find-emplace :
      (k j : String) (v : V) (m : Map V)
      → find j (emplace k v m) ≡ (if str_eq k j then some (find_or v k m) else find j m)
  unfolding emplace find_or
  find-emplace k j v m = ground (arith, eq_iff k j, find-assign k j v m)

  pub find-nil : (k : String) → find {V = V} k [] ≡ none
  unfolding find
  find-nil k = refl

pub ruleset map_laws = (find-nil, find-assign, find-erase, find-emplace)
