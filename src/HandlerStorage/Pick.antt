-- ===== src/HandlerStorage/Pick.antt =====
-- The first entry of a map, in the order of its keys, at which something is found.
use rf_trans_v.Base.{
  ◌≡◌, String, Option, none, some, [], ◌∷◌, arith, str_eq, eq_iff, eq_refl, Option-cases,
  Bool-cases, inl, inr,
}
use rf_trans_v.Base.Order.{◌≺◌, not-eq_of_lt}
use rf_trans_v.Map.{Map, find}
use rf_trans_v.Map.Order.{Above, IsSorted, find_of_Above, Above-trans}

-- `k` is the smallest key of `m` at which `pick` finds something, and it finds `h` there.
pub record IsFirst {V H : Type 0} (pick : V → Option H) (m : Map V) (k : String) (v : V) (h : H)
    : Type 0 where
  pub there : find k m ≡ some v
  pub picked : pick v ≡ some h
  pub least : (j : String) (w : V) → j ≺ k → find j m ≡ some w → pick w ≡ none

module _ {V H : Type 0} (pick : V → Option H) where
  -- Of the entries in order the first at which `pick` finds something.
  abbrev pub first_of : Map V → Option H
  first_of [] = none
  first_of ((k, v) ∷ m) = let rest = first_of m in elim (pick v) [ none ↦ rest | some h ↦ some h ]

  pub head-IsFirst :
      (k : String) (v : V) (m : Map V) (h : H)
      → Above k m
      → pick v ≡ some h
      → IsFirst pick ((k, v) ∷ m) k v h
  unfolding find
  head-IsFirst k v m h a p = record {
    there = ground (arith, eq_refl k);
    picked = p;
    least = λ j w lt e. ground (
      arith,
      eq_iff k j,
      eq_iff j k,
      not-eq_of_lt j k lt,
      find_of_Above j m (Above-trans j k m lt a),
    );
  }

  pub tail-IsFirst :
      (j k : String) (u v : V) (m : Map V) (h : H)
      → Above j m
      → pick u ≡ none
      → IsFirst pick m k v h
      → IsFirst pick ((j, u) ∷ m) k v h
  unfolding find
  tail-IsFirst j k u v m h a p f = record {
    there = ground (arith, eq_iff j k, find_of_Above j m a, f.there);
    picked = f.picked;
    least = λ i w lt e. elim (Bool-cases (str_eq j i)) [
      | inl hit ↦ ground arith
      | inr miss ↦ f.least i w lt (ground arith)
    ];
  }

  pub first_of-IsFirst :
      (m : Map V) (h : H)
      → IsSorted m
      → first_of m ≡ some h
      → (k : String) × (v : V) × IsFirst pick m k v h
  first_of-IsFirst [] h s e = cc
  first_of-IsFirst ((k, v) ∷ m) h s e = elim (Option-cases (pick v)) [
    | inl out ↦
        let (j, w, f) = first_of-IsFirst m h s.1 (ground arith) in
        (j, w, tail-IsFirst k j v w m h s.0 out f)
    | inr (x, p) ↦ (k, v, head-IsFirst k v m h s.0 (ground arith))
  ]

  -- where nothing is found, no entry has it
  pub first_of-none :
      (m : Map V) (k : String) (v : V) → first_of m ≡ none → find k m ≡ some v → pick v ≡ none
  unfolding find
  first_of-none [] k v n e = cc
  first_of-none ((j, w) ∷ m) k v n e = ground (arith, first_of-none m k v)
