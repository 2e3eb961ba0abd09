-- ===== src/Map.antt =====
-- `std::map<std::string, V>`: an association list in the order of its keys, with the operations
-- that the program calls. Iteration goes along the list, so it is in ascending order of keys.
pub mod Laws
pub mod Order
pub mod Holds
use Prim.Native.Nat.{Ordering}
use Prim.Native.String.{compare}
use rf_trans_v.Base.{
  String, Bool, true, false, Option, none, some, List, [], ◌∷◌, map, str_eq, if◌then◌else◌, is_some,
  option_or,
}

abbrev pub Map {ℓ} : Type ℓ → Type ℓ
Map V = List (String × V)

module _ {ℓ} {V : Type ℓ} where
  -- `m.find(k)`, with `none` for `m.end()`
  unfoldable pub find : String → Map V → Option V
  find k [] = none
  find k ((j, v) ∷ m) = if str_eq j k then some v else find k m

  -- `m.find(k) != m.end()`, `m.count(k)`
  unfoldable pub contains : String → Map V → Bool
  unfolding find
  contains k m = is_some (find k m)

  -- the value that `m[k]` reads: the default value where the key is not there
  unfoldable pub find_or : V → String → Map V → V
  unfolding find
  find_or d k m = option_or (find k m) d

  -- `m[k] = v`
  unfoldable pub assign : String → V → Map V → Map V
  assign k v [] = (k, v) ∷ []
  assign k v ((j, w) ∷ m) = elim (compare k j) [
    | Ordering.lt ↦ (k, v) ∷ (j, w) ∷ m
    | Ordering.eq ↦ (k, v) ∷ m
    | Ordering.gt ↦ (j, w) ∷ assign k v m
  ]

  -- `m.emplace(k, v)`: nothing where the key is there
  unfoldable pub emplace : String → V → Map V → Map V
  unfolding find assign
  emplace k v m = elim (find k m) [ none ↦ assign k v m | some _ ↦ m ]

  -- `m.erase(k)`
  unfoldable pub erase : String → Map V → Map V
  erase k [] = []
  erase k ((j, v) ∷ m) = let rest = erase k m in if str_eq j k then rest else (j, v) ∷ rest

  abbrev pub keys : Map V → List String
  keys m = map (λ e. e.0) m
