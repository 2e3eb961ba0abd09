-- ===== src/Map/Holds.antt =====
-- A property of every entry of a map, kept by the operations.
use rf_trans_v.Base.{
  ◌≡◌, String, some, [], ◌∷◌, arith, str_eq, eq_iff, Bool-cases, Bool, any_of, eq_refl, true, inl,
  inr,
}
use mathlib.Core.Path.{subst₂}
use rf_trans_v.Map.{Map, find, assign, erase}
use rf_trans_v.Map.Laws.{find-nil, find-assign, find-erase}
use rf_trans_v.Map.Order.{Above, IsSorted, find_of_Above}

module _ {ℓ κ} {V : Type ℓ} where
  abbrev pub Holds : (String → V → Type κ) → Map V → Type (ℓ ⊔ κ)
  Holds Q m = (k : String) (v : V) → find k m ≡ some v → Q k v

  pub Holds-nil : (Q : String → V → Type κ) → Holds Q []
  Holds-nil Q k v h = cc (find-nil {V = V} k)

  pub Holds-assign :
      (Q : String → V → Type κ) (k : String) (v : V) (m : Map V)
      → Q k v
      → Holds Q m
      → Holds Q (assign k v m)
  Holds-assign Q k v m q h j w e = elim (Bool-cases (str_eq k j)) [
    | inl hit ↦ subst₂ Q ((eq_iff k j).0 hit) (ground (arith, find-assign k j v m)) q
    | inr miss ↦ h j w (ground (arith, find-assign k j v m))
  ]

  -- Where an entry is written twice, only what was written last counts.
  pub Holds-assign-assign :
      (Q : String → V → Type κ) (k : String) (v w : V) (m : Map V)
      → Q k v
      → Holds Q m
      → Holds Q (assign k v (assign k w m))
  Holds-assign-assign Q k v w m q h j x e = elim (Bool-cases (str_eq k j)) [
    | inl hit ↦ subst₂ Q ((eq_iff k j).0 hit) (ground (arith, find-assign k j v (assign k w m))) q
    | inr miss ↦ h j x (ground (arith, find-assign k j v (assign k w m), find-assign k j w m))
  ]

  pub Holds-erase :
      (Q : String → V → Type κ) (k : String) (m : Map V) → Holds Q m → Holds Q (erase k m)
  Holds-erase Q k m h j w e = h j w (ground (arith, find-erase k j m))

  -- the entry at the head, and the rest
  pub Holds-head :
      (Q : String → V → Type κ) (k : String) (v : V) (m : Map V) → Holds Q ((k, v) ∷ m) → Q k v
  unfolding find
  Holds-head Q k v m h = h k v (ground (arith, eq_iff k k))

  pub Holds-tail :
      (Q : String → V → Type κ) (k : String) (v : V) (m : Map V)
      → Above k m
      → Holds Q ((k, v) ∷ m)
      → Holds Q m
  unfolding find
  Holds-tail Q k v m a h j w e = h j w (ground (arith, eq_iff k j, find_of_Above k m a))

  pub Holds-cons :
      (Q : String → V → Type κ) (k : String) (v : V) (m : Map V)
      → Q k v
      → Holds Q m
      → Holds Q ((k, v) ∷ m)
  unfolding find
  Holds-cons Q k v m q h j w e = elim (Bool-cases (str_eq k j)) [
    | inl hit ↦ subst₂ Q ((eq_iff k j).0 hit) (ground arith) q
    | inr miss ↦ h j w (ground arith)
  ]

module _ {ℓ} {V : Type ℓ} (test : V → Bool) where
  -- An entry that passes a test, among those that lookups find.
  abbrev pub Found : Map V → Type ℓ
  Found m = (k : String) × (v : V) × (find k m ≡ some v) × (test v ≡ true)

  Found-cons : (k : String) (v : V) (m : Map V) → Above k m → Found m → Found ((k, v) ∷ m)
  unfolding find
  Found-cons k v m a (j, w, e, h) = (j, w, ground (arith, eq_iff k j, find_of_Above k m a), h)

  pub any_of-Found :
      (m : Map V) → IsSorted m → any_of (λ (e : String × V). test e.1) m ≡ true → Found m
  unfolding find
  any_of-Found [] s h = cc
  any_of-Found ((k, v) ∷ m) s h = elim (Bool-cases (test v)) [
    | inl hit ↦ (k, v, ground (arith, eq_refl k), hit)
    | inr miss ↦ Found-cons k v m s.0 (any_of-Found m s.1 (ground arith))
  ]

  pub Found-any_of :
      (k : String) (v : V) (m : Map V)
      → find k m ≡ some v
      → test v ≡ true
      → any_of (λ (e : String × V). test e.1) m ≡ true
  unfolding find
  Found-any_of k v [] e h = cc
  Found-any_of k v ((j, w) ∷ m) e h = ground (arith, Found-any_of k v m)
