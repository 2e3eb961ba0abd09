-- ===== src/Cli/Watch.antt =====
-- `endpointMap` and `watchEndpoints` of tools/rf_trans.cc: what is printed as added and removed. The
-- key of an endpoint, its fields joined by line ends, is a parameter.
use rf_trans_v.Base.{
  ◌≡◌, refl, ◌||◌, ◌&&◌, String, not, List, [], ◌∷◌, arith, str_eq, eq_iff, if◌then◌else◌, any_of,
}
use rf_trans_v.Map.{Map, find, contains, emplace}
use rf_trans_v.Map.Laws.{find-emplace}

-- A round of the loop: what it prints as added and as removed, and the endpoints of the next.
pub record Round (E : Type 0) : Type 0 where
  pub added : Map E
  pub removed : Map E
  pub previous : Map E

module _ {E : Type 0} where
  unfoldable pub insert_all : (E → String) → List E → Map E → Map E
  unfolding emplace
  insert_all key_of [] m = m
  insert_all key_of (e ∷ es) m = insert_all key_of es (emplace (key_of e) e m)

  unfoldable pub endpoint_map : (E → String) → List E → Map E
  unfolding insert_all
  endpoint_map key_of es = insert_all key_of es []

  -- the endpoints of `m` whose key `other` has not
  unfoldable pub not_in : Map E → Map E → Map E
  unfolding contains
  not_in other [] = []
  not_in other ((k, e) ∷ m) =
      let rest = not_in other m in if contains k other then rest else (k, e) ∷ rest

  unfoldable pub watch_round : (E → String) → List E → Map E → Round E
  unfolding endpoint_map not_in
  watch_round key_of snapshot previous =
      let current = endpoint_map key_of snapshot in
      record {
        added = not_in previous current;
        removed = not_in current previous;
        previous = current;
      }

  contains-not_in :
      (k : String) (other m : Map E)
      → contains k (not_in other m) ≡ contains k m && not (contains k other)
  unfolding not_in contains find
  contains-not_in k other [] = refl
  contains-not_in k other ((j, e) ∷ m) = ground (arith, eq_iff j k, contains-not_in k other m)

  key-emplace :
      (k j : String) (e : E) (m : Map E) → contains j (emplace k e m) ≡ str_eq k j || contains j m
  unfolding contains
  key-emplace k j e m = ground (arith, eq_iff k j, find-emplace k j e m)

  contains-insert_all :
      (key_of : E → String) (k : String) (es : List E) (m : Map E)
      → contains k (insert_all key_of es m) ≡ any_of (λ e. str_eq (key_of e) k) es || contains k m
  unfolding insert_all
  contains-insert_all key_of k [] m = refl
  contains-insert_all key_of k (e ∷ es) m = ground (
    arith,
    key-emplace (key_of e) k e m,
    contains-insert_all key_of k es (emplace (key_of e) e m),
  )

  -- In a round of the watch a key is printed as added exactly when the snapshot has it and the last
  -- one had not, and as removed exactly when the last one had it and the snapshot has not; the next
  -- round starts from the keys of the snapshot.
  pub watch_round-keys :
      (key_of : E → String) (k : String) (snapshot : List E) (previous : Map E)
      → let r = watch_round key_of snapshot previous in
        let now = any_of (λ e. str_eq (key_of e) k) snapshot in
        (contains k r.added ≡ now && not (contains k previous))
        × (contains k r.removed ≡ contains k previous && not now)
        × (contains k r.previous ≡ now)
  unfolding watch_round endpoint_map contains
  watch_round-keys key_of k snapshot previous =
      let current = endpoint_map key_of snapshot in
      let has = contains-insert_all key_of k snapshot [] in
      (
        ground (arith, has, contains-not_in k previous current),
        ground (arith, has, contains-not_in k current previous),
        ground (arith, has),
      )
