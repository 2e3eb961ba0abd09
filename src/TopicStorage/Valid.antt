-- ===== src/TopicStorage/Valid.antt =====
-- The well-formedness of the storage, and that each operation that changes it keeps it.
use rf_trans_v.Base.{
  ◌≡◌, refl, String, Bool, false, some, List, [], ◌∷◌, ◌++◌, arith, eq_iff, is_empty, any_of,
  remove_if, All,
}
use rf_trans_v.Map.{Map, find, assign}
use rf_trans_v.Map.Order.{IsSorted}
use rf_trans_v.Info.Class.{Pub, topic_of, addr_of, process_of, node_of}
use rf_trans_v.TopicStorage.{ProcessMap, TopicStorage, same_endpoint}

module _ {P : Type 0} ⦃e : Pub P⦄ where
  -- No two publishers of a list share an address and a node.
  abbrev pub Distinct : List P → Type 0
  Distinct [] = Unit
  Distinct (p ∷ l) = (any_of (same_endpoint p) l ≡ false) × Distinct l

  -- The publishers stand under their own topic and process.
  abbrev pub Placed : String → String → List P → Type 0
  Placed t u l = All (λ p. (topic_of p ≡ t) × (process_of p ≡ u)) l

  pub record IsListValid (t u : String) (l : List P) : Type 0 where
    pub filled : is_empty l ≡ false
    pub placed : Placed t u l
    pub distinct : Distinct l

  pub record IsTopicValid (t : String) (mp : ProcessMap P) : Type 0 where
    pub filled : is_empty mp ≡ false
    pub sorted : IsSorted mp
    pub lists : (u : String) (l : List P) → find u mp ≡ some l → IsListValid t u l

  pub record IsValid (s : TopicStorage P) : Type 0 where
    pub sorted : IsSorted s
    pub topics : (t : String) (mp : ProcessMap P) → find t s ≡ some mp → IsTopicValid t mp

  same_endpoint_comm : (p q : P) → same_endpoint p q ≡ same_endpoint q p
  same_endpoint_comm p q = ground (
    arith,
    eq_iff (addr_of p) (addr_of q),
    eq_iff (addr_of q) (addr_of p),
    eq_iff (node_of p) (node_of q),
    eq_iff (node_of q) (node_of p),
  )

  any_of-append :
      (p q : P) (l : List P)
      → any_of (same_endpoint q) l ≡ false
      → same_endpoint q p ≡ false
      → any_of (same_endpoint q) (l ++ p ∷ []) ≡ false
  any_of-append p q [] h k = ground arith
  any_of-append p q (x ∷ l) h k = ground (arith, any_of-append p q l)

  pub append-Distinct :
      (p : P) (l : List P)
      → any_of (same_endpoint p) l ≡ false
      → Distinct l
      → Distinct (l ++ p ∷ [])
  append-Distinct p [] h d = (refl, tt)
  append-Distinct p (x ∷ l) h d =
      ground (arith, same_endpoint_comm p x, any_of-append p x l d.0, append-Distinct p l)

  pub append-Placed :
      (t u : String) (p : P) (l : List P)
      → topic_of p ≡ t
      → process_of p ≡ u
      → Placed t u l
      → Placed t u (l ++ p ∷ [])
  append-Placed t u p [] a b h = ((a, b), tt)
  append-Placed t u p (x ∷ l) a b h = (h.0, append-Placed t u p l a b h.1)

  any_of-remove_if :
      (test : P → Bool) (p : P) (l : List P)
      → any_of (same_endpoint p) l ≡ false
      → any_of (same_endpoint p) (remove_if test l) ≡ false
  any_of-remove_if test p [] h = h
  any_of-remove_if test p (x ∷ l) h = ground (arith, any_of-remove_if test p l)

  pub remove_if-Distinct : (test : P → Bool) (l : List P) → Distinct l → Distinct (remove_if test l)
  remove_if-Distinct test [] d = d
  remove_if-Distinct test (x ∷ l) d =
      ground (arith, any_of-remove_if test x l, remove_if-Distinct test l)

  pub remove_if-Placed :
      (test : P → Bool) (t u : String) (l : List P) → Placed t u l → Placed t u (remove_if test l)
  remove_if-Placed test t u [] d = d
  remove_if-Placed test t u (x ∷ l) d = ground (arith, remove_if-Placed test t u l)

  pub is_empty-append : (p : P) (l : List P) → is_empty (l ++ p ∷ []) ≡ false
  is_empty-append p [] = refl
  is_empty-append p (x ∷ l) = refl

module _ {V : Type 0} where
  pub is_empty-assign : (k : String) (v : V) (m : Map V) → is_empty (assign k v m) ≡ false
  unfolding assign
  is_empty-assign k v [] = refl
  is_empty-assign k v ((j, w) ∷ m) = ground arith
