-- ===== src/TopicStorage/Delete.antt =====
-- What the deletions leave, and what they answer.
use rf_trans_v.Base.{
  ◌-◌, ◌≤◌, ◌≡◌, refl, String, Bool, true, ◌&&◌, List, [], ◌∷◌, arith, str_eq, eq_iff, ltb,
  if◌then◌else◌, length, is_empty, any_of, remove_if, Option-cases, inl, inr,
}
use rf_trans_v.Map.{find, contains, erase}
use rf_trans_v.Map.Laws.{find-erase}
use rf_trans_v.Map.Order.{Above, IsSorted, find_of_Above}
use rf_trans_v.Info.Class.{Pub}
use rf_trans_v.TopicStorage.{
  ProcessMap, TopicStorage, at_node, put_process, del_publishers_by_node, del_by_proc,
  del_publishers_by_proc,
}
use rf_trans_v.TopicStorage.Stored.{
  listed, stored, stored-cons, stored-nil, listed-put_process, stored-put_topic,
}

module _ {A : Type 0} (test : A → Bool) where
  length-remove_if-le : (l : List A) → length (remove_if test l) ≤ length l
  length-remove_if-le [] = omega arith
  length-remove_if-le (x ∷ l) = ground (arith, length-remove_if-le l)

  -- the count that the deletions return is positive exactly where something was removed
  removed-eq-any_of : (l : List A) → ltb 0 (length l - length (remove_if test l)) ≡ any_of test l
  removed-eq-any_of [] = refl
  removed-eq-any_of (x ∷ l) = ground (arith, removed-eq-any_of l, length-remove_if-le l)

module _ {P : Type 0} ⦃e : Pub P⦄ where
  -- `delPublishersByNode` removes from the list of the topic and the process just the publishers of
  -- the node, answers whether there was one, and leaves every other list as it was.
  pub stored-del_publishers_by_node :
      (t u n x v : String) (s : TopicStorage P)
      → ((del_publishers_by_node t u n s).1 ≡ any_of (at_node n) (stored t u s))
        × (stored x v (del_publishers_by_node t u n s).0 ≡ (
            if str_eq t x && str_eq u v
            then remove_if (at_node n) (stored x v s)
            else stored x v s))
  unfolding del_publishers_by_node stored listed
  stored-del_publishers_by_node t u n x v s = elim (Option-cases (find t s)) [
    | inl out ↦ (ground arith, ground (arith, eq_iff t x))
    | inr (mp, at) ↦ elim (Option-cases (find u mp)) [
      | inl out ↦ (ground arith, ground (arith, eq_iff t x, eq_iff u v))
      | inr (l, there) ↦
          let rest = remove_if (at_node n) l in
          (
            ground (arith, removed-eq-any_of (at_node n) l),
            ground (
              arith,
              eq_iff t x,
              eq_iff u v,
              stored-put_topic t x v (put_process u rest mp) s,
              listed-put_process u v rest mp,
            ),
          )
    ]
  ]

module _ {P : Type 0} where
  listed-erase :
      (q v : String) (mp : ProcessMap P)
      → listed v (erase q mp) ≡ (if str_eq q v then [] else listed v mp)
  unfolding listed
  listed-erase q v mp = ground (arith, find-erase q v mp)

  listed-empty : (v : String) (mp : ProcessMap P) → is_empty mp ≡ true → listed v mp ≡ []
  unfolding listed find
  listed-empty v [] h = refl
  listed-empty v (e ∷ mp) h = cc

  stored_of_Above : (t v : String) (s : TopicStorage P) → Above t s → stored t v s ≡ []
  unfolding stored listed find
  stored_of_Above t v s h = ground (arith, find_of_Above t s h)

  stored-del_by_proc :
      (q x v : String) (s : TopicStorage P)
      → IsSorted s
      → stored x v (del_by_proc q s).0 ≡ (if str_eq q v then [] else stored x v s)
  unfolding del_by_proc
  stored-del_by_proc q x v [] h = ground (arith, stored-nil {P = P} x v)
  stored-del_by_proc q x v ((t, mp) ∷ s) h = ground (
    arith,
    eq_iff t x,
    stored_of_Above t v s h.0,
    stored-cons t x v mp s,
    stored-cons t x v (erase q mp) (del_by_proc q s).0,
    listed-erase q v mp,
    listed-empty v (erase q mp),
    stored-del_by_proc q x v s h.1,
  )

  count-del_by_proc :
      (q : String) (s : TopicStorage P)
      → ltb 0 (del_by_proc q s).1 ≡ any_of (λ topic. contains q topic.1) s
  unfolding del_by_proc
  count-del_by_proc q [] = refl
  count-del_by_proc q ((t, mp) ∷ s) = ground (arith, count-del_by_proc q s)

  -- Over topics in order, `delPublishersByProc` empties every list of the process, whatever the
  -- topic, leaves the lists of the other processes as they were, and answers whether some topic
  -- had an entry for the process.
  pub stored-del_publishers_by_proc :
      (q x v : String) (s : TopicStorage P)
      → IsSorted s
      → ((del_publishers_by_proc q s).1 ≡ any_of (λ topic. contains q topic.1) s)
        × (stored x v (del_publishers_by_proc q s).0 ≡ (if str_eq q v then [] else stored x v s))
  unfolding del_publishers_by_proc
  stored-del_publishers_by_proc q x v s h = (count-del_by_proc q s, stored-del_by_proc q x v s h)
