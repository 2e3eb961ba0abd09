-- ===== src/TopicStorage/Adds.antt =====
-- `addPublisher` keeps the storage well formed.
use rf_trans_v.Base.{
  ◌≡◌, refl, String, false, none, some, [], ◌∷◌, ◌++◌, arith, eq_refl, Option-cases, inl, inr,
  Bool-cases,
}
use mathlib.Core.Path.{subst}
use rf_trans_v.Map.{find, contains, find_or, assign, emplace}
use rf_trans_v.Map.Laws.{find-assign}
use rf_trans_v.Map.Order.{assign-IsSorted}
use rf_trans_v.Map.Holds.{Holds-assign-assign}
use rf_trans_v.Info.Class.{Pub, topic_of, process_of}
use rf_trans_v.TopicStorage.{ProcessMap, TopicStorage, add_to_process, add_opened, add_publisher}
use rf_trans_v.TopicStorage.Stored.{listed, known, add_to_process-cases}
use rf_trans_v.TopicStorage.Valid.{
  Distinct, Placed, IsListValid, IsTopicValid, IsValid, append-Distinct, append-Placed,
  is_empty-append,
}
use rf_trans_v.TopicStorage.Keeps.{
  IsOpen, nil-IsOpen, found-IsOpen, assign-IsTopicValid, assign-IsValid,
}

module _ {P : Type 0} ⦃e : Pub P⦄ where
  -- the list of a process, which may not be there
  listed-Placed :
      (t u : String) (mp : ProcessMap P)
      → IsOpen t mp
      → Placed t u (listed u mp) × Distinct (listed u mp)
  unfolding listed
  listed-Placed t u mp o = elim (Option-cases (find u mp)) [
    | inl out ↦ rw (out, listed) (tt, tt)
    | inr (l, at) ↦ rw (at, listed) ((o.lists u l at).placed, (o.lists u l at).distinct)
  ]

  grown-IsListValid :
      (p : P) (mp : ProcessMap P)
      → IsOpen (topic_of p) mp
      → known p (listed (process_of p) mp) ≡ false
      → IsListValid (topic_of p) (process_of p) (listed (process_of p) mp ++ p ∷ [])
  grown-IsListValid p mp o new =
      let h = listed-Placed (topic_of p) (process_of p) mp o in
      let l = listed (process_of p) mp in
      record {
        filled = is_empty-append p l;
        placed = append-Placed (topic_of p) (process_of p) p l refl refl h.0;
        distinct = append-Distinct p l new h.1;
      }

  add_to_process-IsTopicValid :
      (p : P) (mp mp' : ProcessMap P)
      → IsOpen (topic_of p) mp
      → add_to_process p mp ≡ some mp'
      → IsTopicValid (topic_of p) mp'
  add_to_process-IsTopicValid p mp mp' o e =
      elim (Bool-cases (known p (listed (process_of p) mp))) [
        | inl old ↦ cc (add_to_process-cases p mp, old)
        | inr new ↦
            let l = listed (process_of p) mp ++ p ∷ [] in
            let h : assign (process_of p) l mp ≡ mp' = ground (arith, add_to_process-cases p mp) in
            subst (IsTopicValid (topic_of p)) h (
              assign-IsTopicValid (topic_of p) (process_of p) l mp (grown-IsListValid p mp o new) o)
      ]

  first-IsTopicValid : (p : P) → IsTopicValid (topic_of p) (assign (process_of p) (p ∷ []) [])
  first-IsTopicValid p =
      assign-IsTopicValid (topic_of p) (process_of p) (p ∷ []) []
        (record { filled = refl; placed = ((refl, refl), tt); distinct = (refl, tt) })
        (nil-IsOpen (topic_of p))

  add_opened-IsValid : (p : P) (s : TopicStorage P) → IsValid s → IsValid (add_opened p s).0
  unfolding add_opened
  add_opened-IsValid p s v = elim (Option-cases (add_to_process p (find_or [] (topic_of p) s))) [
    | inl out ↦ rw (out, add_opened) v
    | inr (mp, at) ↦
        rw (at, add_opened)
          (assign-IsValid (topic_of p) mp s
            (add_to_process-IsTopicValid p (find_or [] (topic_of p) s) mp
              (found-IsOpen (topic_of p) s v) at)
            v.sorted v.topics)
  ]

  -- a topic that is not there gets its first process
  add_first-IsValid :
      (p : P) (s : TopicStorage P)
      → IsValid s
      → find (topic_of p) s ≡ none
      → IsValid (add_opened p (assign (topic_of p) [] s)).0
  unfolding add_opened add_to_process contains find_or find
  add_first-IsValid p s v out =
      let t = topic_of p in
      let opened = assign t [] s in
      let mp = assign (process_of p) (p ∷ []) [] in
      let h : find t opened ≡ some [] = ground (arith, find-assign t t [] s, eq_refl t) in
      let k : (add_opened p opened).0 ≡ assign t mp opened = ground arith in
      rw k (record {
        sorted = assign-IsSorted t mp opened (assign-IsSorted t [] s v.sorted);
        topics = Holds-assign-assign IsTopicValid t mp [] s (first-IsTopicValid p) v.topics;
      })

  -- Each call of `addPublisher` keeps the storage well formed.
  pub add_publisher-IsValid :
      (p : P) (s : TopicStorage P) → IsValid s → IsValid (add_publisher p s).0
  unfolding add_publisher
  add_publisher-IsValid p s v = elim (Option-cases (find (topic_of p) s)) [
    | inl out ↦ rw (out, emplace) (add_first-IsValid p s v out)
    | inr (mp, at) ↦ rw (at, emplace) (add_opened-IsValid p s v)
  ]
