-- ===== src/Node/Destroy.antt =====
-- What the destructor of src/node.cc calls, and what it leaves.
use rf_trans_v.Base.{
  ◌≡◌, refl, ◌++◌, String, Bool, true, false, List, [], ◌∷◌, map, arith, str_eq, eq_iff, eq_refl,
}
use rf_trans_v.Node.{
  Node, SharedCall, unsubscribes, unadvertises_message, unadvertises_service, holds, erase_topic,
  unsubscribe, unadvertise, unadvertise_service, for_each, destroy,
}

-- the topics that are left of a set when others are taken out one by one
abbrev without : List String → List String → List String
without [] s = s
without (t ∷ ts) s = without ts (erase_topic t s)

holds-erase_topic :
    (t x : String) (s : List String)
    → holds x (erase_topic t s) ≡ true
    → (holds x s ≡ true) × (str_eq x t ≡ false)
holds-erase_topic t x [] h = cc
holds-erase_topic t x (y ∷ s) h =
    ground (arith, h, eq_iff x t, eq_iff x y, eq_iff t y, eq_refl y, holds-erase_topic t x s)

without-nothing_else :
    (ts s : List String) → ((x : String) → holds x s ≡ true → holds x ts ≡ true) → without ts s ≡ []
without-nothing_else [] [] h = refl
without-nothing_else [] (y ∷ s) h = ground (arith, h y, eq_refl y)
without-nothing_else (t ∷ ts) s h =
    without-nothing_else ts (erase_topic t s)
      (λ x k. let both = holds-erase_topic t x s k in ground (arith, h x both.0, both.1))

module _ (answers : SharedCall → Bool) where
  abbrev drop_subscription : String → Node → Node × Bool × List SharedCall
  drop_subscription t n = unsubscribe (answers (unsubscribes t)) t n

  abbrev drop_topic : String → Node → Node × Bool × List SharedCall
  drop_topic t n = unadvertise (answers (unadvertises_message t)) t n

  abbrev drop_service : String → Node → Node × Bool × List SharedCall
  drop_service t n = unadvertise_service (answers (unadvertises_service t)) t n

  subscriptions-dropped :
      (ts : List String) (n : Node)
      → ((t : String) → answers (unsubscribes t) ≡ true)
      → for_each drop_subscription ts n
        ≡ (record n { subscribed_topics = without ts n.subscribed_topics }, map unsubscribes ts)
  unfolding for_each unsubscribe
  subscriptions-dropped [] n ok = refl
  subscriptions-dropped (t ∷ ts) n ok =
      let left = record n { subscribed_topics = erase_topic t n.subscribed_topics } in
      ground (arith, ok t, subscriptions-dropped ts left ok)

  topics-dropped :
      (ts : List String) (n : Node)
      → for_each drop_topic ts n ≡ (
        record n { advertised_topics = without ts n.advertised_topics },
        map unadvertises_message ts,
      )
  unfolding for_each unadvertise
  topics-dropped [] n = refl
  topics-dropped (t ∷ ts) n =
      let left = record n { advertised_topics = erase_topic t n.advertised_topics } in
      ground (arith, topics-dropped ts left)

  services-dropped :
      (ts : List String) (n : Node)
      → for_each drop_service ts n
        ≡ (record n { advertised_srvs = without ts n.advertised_srvs }, map unadvertises_service ts)
  unfolding for_each unadvertise_service
  services-dropped [] n = refl
  services-dropped (t ∷ ts) n =
      let left = record n { advertised_srvs = erase_topic t n.advertised_srvs } in
      ground (arith, services-dropped ts left)

  -- Where the shared process lets every subscription go, as it always does, the destructor withdraws
  -- each subscription, then each topic, then each service of the node, once each, and leaves none.
  pub destroy-all :
      (n : Node)
      → ((t : String) → answers (unsubscribes t) ≡ true)
      → destroy answers n ≡ (
        record n { subscribed_topics = []; advertised_topics = []; advertised_srvs = [] },
        map unsubscribes n.subscribed_topics
            ++ (map unadvertises_message n.advertised_topics
                ++ map unadvertises_service n.advertised_srvs),
      )
  unfolding destroy
  destroy-all n ok =
      let n1 : Node = record n {
        subscribed_topics = without n.subscribed_topics n.subscribed_topics;
      } in
      let n2 : Node = record n1 {
        advertised_topics = without n.advertised_topics n.advertised_topics;
      } in
      ground (
        arith,
        subscriptions-dropped n.subscribed_topics n ok,
        topics-dropped n.advertised_topics n1,
        services-dropped n.advertised_srvs n2,
        without-nothing_else n.subscribed_topics n.subscribed_topics (λ x h. h),
        without-nothing_else n.advertised_topics n.advertised_topics (λ x h. h),
        without-nothing_else n.advertised_srvs n.advertised_srvs (λ x h. h),
      )
