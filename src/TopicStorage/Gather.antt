-- ===== src/TopicStorage/Gather.antt =====
-- The queries that gather the publishers of a process over all topics.
use mathlib.Core.List.{append-nil, append_assoc}
use rf_trans_v.Base.{
  ◌≡◌, refl, sym, ◌∙◌, String, List, [], ◌∷◌, ◌++◌, none, some, arith, eq_iff, eq_refl, keep_if,
  Option-cases, inl, inr,
}
use rf_trans_v.Base.Order.{not-eq_of_lt}
use rf_trans_v.Map.{Map, find, find_or, assign, keys}
use rf_trans_v.Map.Order.{Above, IsSorted}
use rf_trans_v.Info.Class.{Pub, node_of}
use rf_trans_v.TopicStorage.{
  ProcessMap, TopicStorage, at_node, get_publishers_by_node, get_publishers_by_proc, group_by_node,
  gather_by_proc, get_topic_list,
}
use rf_trans_v.TopicStorage.Stored.{stored, listed, listed-assign, stored-cons}

module _ {P : Type 0} where
  -- the lists of a process over some topics, joined
  abbrev pub over_topics : (List P → List P) → String → List String → TopicStorage P → List P
  over_topics pick u [] s = []
  over_topics pick u (t ∷ ts) s = pick (stored t u s) ++ over_topics pick u ts s

  over_topics-cons :
      (pick : List P → List P) (u x : String) (mp : ProcessMap P) (m s : TopicStorage P)
      → Above x m
      → over_topics pick u (keys m) ((x, mp) ∷ s) ≡ over_topics pick u (keys m) s
  unfolding stored find
  over_topics-cons pick u x mp [] s a = refl
  over_topics-cons pick u x mp ((t, mq) ∷ m) s a =
      ground (arith, not-eq_of_lt x t a.0, over_topics-cons pick u x mp m s a.1)

module _ {P : Type 0} ⦃e : Pub P⦄ where
  -- what one topic gives
  kept :
      (n u : String) (mp : ProcessMap P)
      → (elim (find u mp) as (λ _. List P) [ none ↦ [] | some l ↦ keep_if (at_node n) l ])
        ≡ keep_if (at_node n) (listed u mp)
  unfolding listed
  kept n u mp = ground arith

  -- In a storage with its topics in order `getPublishersByNode` returns, topic by topic in the
  -- order of `getTopicList`, the publishers of the node among those of the process.
  pub get_publishers_by_node-eq :
      (u n : String) (s : TopicStorage P)
      → IsSorted s
      → get_publishers_by_node u n s ≡ over_topics (keep_if (at_node n)) u (get_topic_list s) s
  unfolding get_publishers_by_node get_topic_list
  get_publishers_by_node-eq u n [] o = refl
  get_publishers_by_node-eq u n ((t, mp) ∷ s) o = ground (
    arith,
    eq_refl t,
    stored-cons t t u mp s,
    kept n u mp,
    over_topics-cons (keep_if (at_node n)) u t mp s s o.0,
    get_publishers_by_node-eq u n s o.1,
  )

  listed-is-find_or : (n : String) (pubs : Map (List P)) → find_or [] n pubs ≡ listed n pubs
  unfolding listed
  listed-is-find_or n pubs = refl

  listed-group_by_node :
      (n : String) (l : List P) (pubs : Map (List P))
      → listed n (group_by_node l pubs) ≡ listed n pubs ++ keep_if (at_node n) l
  unfolding group_by_node
  listed-group_by_node n [] pubs = sym (append-nil _)
  listed-group_by_node n (p ∷ l) pubs =
      let grown = find_or [] (node_of p) pubs ++ p ∷ [] in
      ground (
        arith,
        listed-is-find_or n pubs,
        eq_iff (node_of p) n,
        listed-group_by_node n l (assign (node_of p) grown pubs),
        listed-assign (node_of p) n grown pubs,
        append_assoc (listed n pubs) (p ∷ []) (keep_if (at_node n) l),
      )

  listed-gather_by_proc :
      (u n : String) (s : TopicStorage P) (pubs : Map (List P))
      → listed n (gather_by_proc u s pubs) ≡ listed n pubs ++ get_publishers_by_node u n s
  unfolding gather_by_proc get_publishers_by_node
  listed-gather_by_proc u n [] pubs = sym (append-nil _)
  listed-gather_by_proc u n ((t, mp) ∷ s) pubs = elim (Option-cases (find u mp)) [
    | inl out ↦ rw (out, gather_by_proc, get_publishers_by_node) (listed-gather_by_proc u n s pubs)
    | inr (l, at) ↦
        rw (at, gather_by_proc, get_publishers_by_node)
          (listed-gather_by_proc u n s (group_by_node l pubs)
            ∙ (rw (listed-group_by_node n l pubs) (
                append_assoc (listed n pubs) (keep_if (at_node n) l)
                  (get_publishers_by_node u n s))))
  ]

  -- `getPublishersByProc` gives each node just what `getPublishersByNode` returns for it.
  pub get_publishers_by_proc-eq :
      (u n : String) (s : TopicStorage P)
      → listed n (get_publishers_by_proc u s) ≡ get_publishers_by_node u n s
  unfolding get_publishers_by_proc listed find
  get_publishers_by_proc-eq u n s = listed-gather_by_proc u n s []
