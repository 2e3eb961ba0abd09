-- ===== src/TopicStorage/Queries.antt =====
-- What the queries answer, in terms of the lists that the storage holds.
use rf_trans_v.Base.{
  ◌≡◌, ◌↔◌, String, Bool, true, false, not, ◌||◌, List, [], ◌∷◌, arith, str_eq, eq_refl, is_empty,
  any_of, find_if, Option-cases, inl, inr,
}
use rf_trans_v.Map.{find}
use rf_trans_v.Map.Order.{IsSorted}
use rf_trans_v.Map.Holds.{any_of-Found, Found-any_of}
use rf_trans_v.Info.Class.{Pub, addr_of}
use rf_trans_v.TopicStorage.{
  ProcessMap, TopicStorage, at_node, generic_message_type, has_topic, has_topic_of_type,
  has_any_publishers, has_publisher, get_publisher,
}
use rf_trans_v.TopicStorage.Stored.{stored, listed}
use rf_trans_v.TopicStorage.Valid.{IsTopicValid, IsValid}

module _ {P : Type 0} ⦃e : Pub P⦄ where
  -- `getPublisher` finds the first publisher of the node in the list of the topic and the process,
  -- and fails exactly where that list has none.
  pub get_publisher-eq-find_if :
      (t u n : String) (s : TopicStorage P)
      → get_publisher t u n s ≡ find_if (at_node n) (stored t u s)
  unfolding get_publisher stored
  get_publisher-eq-find_if t u n s = ground arith

  -- In a well-formed storage `hasAnyPublishers` tells whether the list is not empty.
  pub has_any_publishers-eq :
      (t u : String) (s : TopicStorage P)
      → IsValid s
      → has_any_publishers t u s ≡ not (is_empty (stored t u s))
  unfolding has_any_publishers stored
  has_any_publishers-eq t u s v = elim (Option-cases (find t s)) [
    | inl out ↦ ground arith
    | inr (mp, at) ↦ elim (Option-cases (find u mp)) [
      | inl out ↦ ground arith
      | inr (l, there) ↦ let w = ((v.topics t mp at).lists u l there).filled in ground arith
    ]
  ]

  topic_process :
      (t : String) (mp : ProcessMap P)
      → IsTopicValid t mp
      → (u : String) × (is_empty (listed u mp) ≡ false)
  unfolding listed find
  topic_process t [] w = cc (w.filled)
  topic_process t ((u, l) ∷ mp) w =
      let k = w.lists u l (ground (arith, eq_refl u)) in (u, ground (arith, eq_refl u, k.filled))

  -- A well-formed storage has a topic exactly when some process publishes on it.
  pub has_topic_iff :
      (t : String) (s : TopicStorage P)
      → IsValid s
      → (has_topic t s ≡ true) ↔ ((u : String) × (is_empty (stored t u s) ≡ false))
  unfolding has_topic stored
  has_topic_iff t s v = elim (Option-cases (find t s)) [
    | inl out ↦ (λ h. cc, λ (u, h). ground arith)
    | inr (mp, at) ↦ (
      λ h. let (u, k) = topic_process t mp (v.topics t mp at) in (u, ground arith),
      λ h. ground arith,
    )
  ]

  -- a loop over the processes of a topic, against the lists
  any_process :
      (test : P → Bool) (mp : ProcessMap P)
      → IsSorted mp
      → (any_of (λ (proc : String × List P). any_of test proc.1) mp ≡ true)
        ↔ ((u : String) × (any_of test (listed u mp) ≡ true))
  unfolding listed
  any_process test mp o = (
    λ h. let (u, l, at, k) = any_of-Found (any_of test) mp o h in (u, ground arith),
    λ (u, h). elim (Option-cases (find u mp)) [
      | inl out ↦ absurd (ground arith)
      | inr (l, at) ↦ Found-any_of (any_of test) u l mp at (ground arith)
    ],
  )

  -- In a well-formed storage an address is known exactly when some list has a publisher with it.
  pub has_publisher_iff :
      (a : String) (s : TopicStorage P)
      → IsValid s
      → (has_publisher a s ≡ true)
        ↔ ((t : String) × (u : String) × (any_of (λ p. str_eq (addr_of p) a) (stored t u s) ≡ true))
  unfolding has_publisher stored
  has_publisher_iff a s v =
      let test : P → Bool = λ p. str_eq (addr_of p) a in
      let topic : ProcessMap P → Bool = λ mp. any_of (λ proc. any_of test proc.1) mp in
      (
        λ h.
            let (t, mp, at, k) = any_of-Found topic s v.sorted h in
            let (u, m) = (any_process test mp (v.topics t mp at).sorted).0 k in
            (t, u, ground arith),
        λ (t, u, h). elim (Option-cases (find t s)) [
          | inl out ↦ absurd (ground arith)
          | inr (mp, at) ↦
              Found-any_of topic t mp s at
                ((any_process test mp (v.topics t mp at).sorted).1 (u, ground arith))
        ],
      )

  -- In a well-formed storage `hasTopic` with a message type holds exactly when some process has a
  -- publisher on the topic of that type, or of the generic type.
  pub has_topic_of_type_iff :
      (type_of : P → String) (t ty : String) (s : TopicStorage P)
      → IsValid s
      → (has_topic_of_type type_of t ty s ≡ true) ↔ (
          (u : String) × (any_of
              (λ p. str_eq (type_of p) ty || str_eq (type_of p) generic_message_type)
              (stored t u s)
            ≡ true))
  unfolding has_topic_of_type has_topic stored
  has_topic_of_type_iff type_of t ty s v =
      let test : P → Bool = λ p. str_eq (type_of p) ty || str_eq (type_of p) generic_message_type in
      elim (Option-cases (find t s)) [
        | inl out ↦ (λ h. absurd (ground arith), λ (u, h). absurd (ground arith))
        | inr (mp, at) ↦
            let both = any_process test mp (v.topics t mp at).sorted in
            (
              λ h. let (u, k) = both.0 (ground arith) in (u, ground arith),
              λ (u, h). let k = both.1 (u, ground arith) in ground arith,
            )
      ]
