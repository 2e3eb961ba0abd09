-- ===== src/TopicStorage/Keeps.antt =====
-- The deletions keep the storage well formed, and so does each write of a topic.
use rf_trans_v.Base.{
  refl, String, List, [], ◌∷◌, arith, is_empty, remove_if, Option-cases, inl, inr, if◌then◌else◌,
}
use rf_trans_v.Map.{find, find_or, assign, erase}
use rf_trans_v.Map.Order.{Above, IsSorted, assign-IsSorted, erase-IsSorted}
use rf_trans_v.Map.Holds.{
  Holds, Holds-nil, Holds-assign, Holds-erase, Holds-head, Holds-tail, Holds-cons,
}
use rf_trans_v.Info.Class.{Pub}
use rf_trans_v.TopicStorage.{
  ProcessMap, TopicStorage, at_node, put_process, put_topic, del_publishers_by_node, del_by_proc,
  del_publishers_by_proc,
}
use rf_trans_v.TopicStorage.Valid.{
  Distinct, Placed, IsListValid, IsTopicValid, IsValid, remove_if-Distinct, remove_if-Placed,
  is_empty-assign,
}

module _ {P : Type 0} ⦃e : Pub P⦄ where
  -- A topic that may have no process, as within an operation.
  pub record IsOpen (t : String) (mp : ProcessMap P) : Type 0 where
    pub sorted : IsSorted mp
    pub lists : Holds (IsListValid t) mp

  pub nil-IsOpen : (t : String) → IsOpen t []
  nil-IsOpen t = record { sorted = tt; lists = Holds-nil (IsListValid t) }

  pub IsTopicValid-IsOpen : {t : String} {mp : ProcessMap P} → IsTopicValid t mp → IsOpen t mp
  IsTopicValid-IsOpen v = record { sorted = v.sorted; lists = v.lists }

  -- the processes of a topic, which `data_[topic]` opens where it is not there
  pub found-IsOpen : (t : String) (s : TopicStorage P) → IsValid s → IsOpen t (find_or [] t s)
  unfolding find_or
  found-IsOpen t s v = elim (Option-cases (find t s)) [
    | inl out ↦ rw (out, find_or) (nil-IsOpen t)
    | inr (mp, at) ↦ rw (at, find_or) (IsTopicValid-IsOpen (v.topics t mp at))
  ]

  pub assign-IsTopicValid :
      (t u : String) (l : List P) (mp : ProcessMap P)
      → IsListValid t u l
      → IsOpen t mp
      → IsTopicValid t (assign u l mp)
  assign-IsTopicValid t u l mp v o = record {
    filled = is_empty-assign u l mp;
    sorted = assign-IsSorted u l mp o.sorted;
    lists = Holds-assign (IsListValid t) u l mp v o.lists;
  }

  erase-IsOpen : (t u : String) (mp : ProcessMap P) → IsOpen t mp → IsOpen t (erase u mp)
  erase-IsOpen t u mp o = record {
    sorted = erase-IsSorted u mp o.sorted;
    lists = Holds-erase (IsListValid t) u mp o.lists;
  }

  put_process-IsOpen :
      (t u : String) (l : List P) (mp : ProcessMap P)
      → Placed t u l
      → Distinct l
      → IsOpen t mp
      → IsOpen t (put_process u l mp)
  unfolding put_process
  put_process-IsOpen t u [] mp p d o = erase-IsOpen t u mp o
  put_process-IsOpen t u (x ∷ l) mp p d o =
      IsTopicValid-IsOpen
        (assign-IsTopicValid t u (x ∷ l) mp (record { filled = refl; placed = p; distinct = d }) o)

  pub assign-IsValid :
      (t : String) (mp : ProcessMap P) (s : TopicStorage P)
      → IsTopicValid t mp
      → IsSorted s
      → Holds IsTopicValid s
      → IsValid (assign t mp s)
  assign-IsValid t mp s w o h = record {
    sorted = assign-IsSorted t mp s o;
    topics = Holds-assign IsTopicValid t mp s w h;
  }

  put_topic-IsValid :
      (t : String) (mp : ProcessMap P) (s : TopicStorage P)
      → IsOpen t mp
      → IsValid s
      → IsValid (put_topic t mp s)
  unfolding put_topic
  put_topic-IsValid t [] s o v = record {
    sorted = erase-IsSorted t s v.sorted;
    topics = Holds-erase IsTopicValid t s v.topics;
  }
  put_topic-IsValid t (x ∷ mp) s o v =
      assign-IsValid t (x ∷ mp) s (record { filled = refl; sorted = o.sorted; lists = o.lists })
        v.sorted v.topics

  pub nil-IsValid : IsValid {P = P} []
  nil-IsValid = record { sorted = tt; topics = Holds-nil IsTopicValid }

  -- `delPublishersByNode` keeps the storage well formed.
  pub del_publishers_by_node-IsValid :
      (t u n : String) (s : TopicStorage P) → IsValid s → IsValid (del_publishers_by_node t u n s).0
  unfolding del_publishers_by_node
  del_publishers_by_node-IsValid t u n s v = elim (Option-cases (find t s)) [
    | inl out ↦ rw (out, del_publishers_by_node) v
    | inr (mp, at) ↦ elim (Option-cases (find u mp)) [
      | inl out ↦ rw (at, out, del_publishers_by_node) v
      | inr (l, there) ↦
          let w = v.topics t mp at in
          let k = w.lists u l there in
          rw (at, there, del_publishers_by_node)
            (put_topic-IsValid t (put_process u (remove_if (at_node n) l) mp) s
              (put_process-IsOpen t u (remove_if (at_node n) l) mp
                (remove_if-Placed (at_node n) t u l k.placed)
                (remove_if-Distinct (at_node n) l k.distinct) (IsTopicValid-IsOpen w))
              v)
    ]
  ]

  Above-del_by_proc : (t q : String) (s : TopicStorage P) → Above t s → Above t (del_by_proc q s).0
  unfolding del_by_proc
  Above-del_by_proc t q [] a = a
  Above-del_by_proc t q ((x, mp) ∷ s) a = ground (arith, Above-del_by_proc t q s)

  cons-IsValid :
      (t : String) (mp : ProcessMap P) (s : TopicStorage P)
      → IsOpen t mp
      → Above t s
      → IsValid s
      → IsValid (if is_empty mp then s else (t, mp) ∷ s)
  cons-IsValid t [] s o a v = v
  cons-IsValid t (x ∷ mp) s o a v = record {
    sorted = (a, v.sorted);
    topics =
        Holds-cons IsTopicValid t (x ∷ mp) s
          (record { filled = refl; sorted = o.sorted; lists = o.lists }) v.topics;
  }

  del_by_proc-IsValid : (q : String) (s : TopicStorage P) → IsValid s → IsValid (del_by_proc q s).0
  unfolding del_by_proc
  del_by_proc-IsValid q [] v = v
  del_by_proc-IsValid q ((t, mp) ∷ s) v =
      cons-IsValid t (erase q mp) (del_by_proc q s).0
        (erase-IsOpen t q mp (IsTopicValid-IsOpen (Holds-head IsTopicValid t mp s v.topics)))
        (Above-del_by_proc t q s v.sorted.0)
        (del_by_proc-IsValid q s (record {
          sorted = v.sorted.1;
          topics = Holds-tail IsTopicValid t mp s v.sorted.0 v.topics;
        }))

  -- `delPublishersByProc` keeps the storage well formed.
  pub del_publishers_by_proc-IsValid :
      (q : String) (s : TopicStorage P) → IsValid s → IsValid (del_publishers_by_proc q s).0
  unfolding del_publishers_by_proc
  del_publishers_by_proc-IsValid q s v = del_by_proc-IsValid q s v
