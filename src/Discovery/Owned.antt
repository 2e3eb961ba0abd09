-- ===== src/Discovery/Owned.antt =====
-- What holds of all publishers of a process holds of those that include/trans/details/discovery.hpp
-- takes out of its storage.
use rf_trans_v.Base.{
  ◌≡◌, ◌++◌, sym, String, Bool, some, List, [], ◌∷◌, arith, str_eq, eq_iff, eq_refl, All,
  All-append, Option-cases, Bool-cases, inl, inr, find_if, remove_if,
}
use Prim.Native.Nat.{Ordering}
use Prim.Native.String.{compare}
use mathlib.Core.Path.{subst}
use rf_trans_v.Map.{Map, find, find_or, assign}
use rf_trans_v.Map.Order.{IsSorted, find_of_Above}
use rf_trans_v.Info.Class.{Pub, node_of}
use rf_trans_v.TopicStorage.{TopicStorage, group_by_node, gather_by_proc, get_publishers_by_proc}
use rf_trans_v.TopicStorage.Stored.{stored, listed, stored-cons}

listed_of_find :
    {P : Type 0} (u : String) (mp : Map (List P)) (l : List P)
    → find u mp ≡ some l
    → listed u mp ≡ l
unfolding listed find_or
listed_of_find u mp l at = ground (arith, at)

module _ {P : Type 0} (Q : P → Type 0) where
  pub of_find_if : (test : P → Bool) (l : List P) (x : P) → find_if test l ≡ some x → All Q l → Q x
  of_find_if test [] x at h = cc
  of_find_if test (y ∷ l) x at h = elim (Bool-cases (test y)) [
    | inl fits ↦ subst Q (ground (arith, at, fits)) h.0
    | inr other ↦ of_find_if test l x (ground (arith, at, other)) h.1
  ]

  pub All-remove_if : (test : P → Bool) (l : List P) → All Q l → All Q (remove_if test l)
  All-remove_if test [] h = tt
  All-remove_if test (x ∷ l) h = ground (arith, h, All-remove_if test l h.1)

  -- of all lists that a map has
  abbrev pub EachAll : Map (List P) → Type 0
  EachAll m = All (λ (e : String × List P). All Q e.1) m

  EachAll-assign :
      (k : String) (l : List P) (m : Map (List P)) → All Q l → EachAll m → EachAll (assign k l m)
  unfolding assign
  EachAll-assign k l [] h each = (h, tt)
  EachAll-assign k l ((j, w) ∷ m) h each =
      elim (compare k j)
        as (λ c. EachAll (elim c as (λ _. Map (List P)) [
          | Ordering.lt ↦ (k, l) ∷ (j, w) ∷ m
          | Ordering.eq ↦ (k, l) ∷ m
          | Ordering.gt ↦ (j, w) ∷ assign k l m
        ])) [
          | Ordering.lt ↦ (h, each)
          | Ordering.eq ↦ (h, each.1)
          | Ordering.gt ↦ (each.0, EachAll-assign k l m h each.1)
        ]

  All-find_or : (k : String) (m : Map (List P)) → EachAll m → All Q (find_or [] k m)
  unfolding find_or find
  All-find_or k [] each = tt
  All-find_or k ((j, w) ∷ m) each = ground (arith, each, All-find_or k m each.1)

  module _ ⦃e : Pub P⦄ where
    EachAll-group_by_node :
        (l : List P) (pubs : Map (List P)) → All Q l → EachAll pubs → EachAll (group_by_node l pubs)
    unfolding group_by_node
    EachAll-group_by_node [] pubs h each = each
    EachAll-group_by_node (p ∷ l) pubs h each =
        let grown = find_or [] (node_of p) pubs ++ p ∷ [] in
        EachAll-group_by_node l (assign (node_of p) grown pubs) h.1 (
          EachAll-assign (node_of p) grown pubs
            (All-append Q (find_or [] (node_of p) pubs) (p ∷ []) (All-find_or (node_of p) pubs each)
              (h.0, tt))
            each)

    stored-tail :
        (t x u : String) (mp : Map (List P)) (s : TopicStorage P)
        → IsSorted ((t, mp) ∷ s)
        → All Q (stored x u ((t, mp) ∷ s))
        → All Q (stored x u s)
    unfolding stored listed find_or find
    stored-tail t x u mp s o h = elim (Bool-cases (str_eq t x)) [
      | inl same ↦
          let gone : stored x u s ≡ [] = ground (arith, same, eq_iff t x, find_of_Above t s o.0) in
          subst (All Q) (sym gone) tt
      | inr other ↦ subst (All Q) (ground (arith, other, stored-cons t x u mp s)) h
    ]

    EachAll-gather_by_proc :
        (u : String) (s : TopicStorage P) (pubs : Map (List P))
        → IsSorted s
        → ((t : String) → All Q (stored t u s))
        → EachAll pubs
        → EachAll (gather_by_proc u s pubs)
    unfolding gather_by_proc
    EachAll-gather_by_proc u [] pubs o own each = each
    EachAll-gather_by_proc u ((t, mp) ∷ s) pubs o own each =
        let rest : (x : String) → All Q (stored x u s) = λ x. stored-tail t x u mp s o (own x) in
        elim (Option-cases (find u mp)) [
          | inl out ↦ rw (out, gather_by_proc) (EachAll-gather_by_proc u s pubs o.1 rest each)
          | inr (l, at) ↦
              let here : stored t u ((t, mp) ∷ s) ≡ l =
                ground (arith, at, stored-cons t t u mp s, eq_refl t, listed_of_find u mp l at) in
              rw (at, gather_by_proc)
                (EachAll-gather_by_proc u s (group_by_node l pubs) o.1 rest
                  (EachAll-group_by_node l pubs (subst (All Q) here (own t)) each))
        ]

    pub EachAll-by_proc :
        (u : String) (s : TopicStorage P)
        → IsSorted s
        → ((t : String) → All Q (stored t u s))
        → EachAll (get_publishers_by_proc u s)
    unfolding get_publishers_by_proc
    EachAll-by_proc u s o own = EachAll-gather_by_proc u s [] o own tt
